-- ===== src/Floors/Types.antt =====
-- src/core/floors.rs: the data types of the minimum-copy floors.
use backupsage.Base.{ℕ, Bool, true, false, Option, List}
use backupsage.Base.Int.{ℤ}
use backupsage.Coverage.{Bytes, RowRef, Exclusion, UnknownContent}

pub data SourceStatus : Type 0 where
  ok incomplete stale_index db_missing archive_missing : SourceStatus

-- Whether a copy in a source with this status counts.
unfoldable pub counts_toward_floor : SourceStatus → Bool
counts_toward_floor SourceStatus.ok = true
counts_toward_floor incomplete = true
counts_toward_floor stale_index = false
counts_toward_floor db_missing = false
counts_toward_floor archive_missing = false

pub record FloorParams : Type 0 where
  pub min_copies : ℕ
  pub min_size : ℕ
  pub include_empty : Bool

-- `FloorParams::default`
abbrev pub default_params : FloorParams
default_params = record { min_copies = 2; min_size = 0; include_empty = false }

pub data Verdict : Type 0 where
  meets_floor below_floor inconclusive : Verdict

pub record FloorCopy : Type 0 where
  pub row : RowRef
  pub source_label : Bytes
  pub status : SourceStatus
  pub counts : Bool
  pub protected : Bool

pub record GroupFloor : Type 0 where
  pub content_hash : Bytes
  pub size : Option ℕ
  pub verdict : Verdict
  pub only_copy : Bool
  pub trusted_replicas : ℕ
  pub untrusted_replicas : ℕ
  pub protected_replicas : ℕ
  pub unknown_sources : ℕ
  pub copies : List FloorCopy
  pub aliases : List RowRef

pub data GroupExclusionReason : Type 0 where
  empty_content below_min_size : GroupExclusionReason

pub record GroupExclusion : Type 0 where
  pub content_hash : Bytes
  pub size : Option ℕ
  pub reason : GroupExclusionReason
  pub copies : List FloorCopy
  pub aliases : List RowRef

pub record FloorSource : Type 0 where
  pub source_id : ℤ
  pub label : Bytes
  pub status : SourceStatus
  pub counts : Bool
  pub protected : Bool

pub record FloorSummary : Type 0 where
  pub min_copies : ℕ
  pub groups : ℕ
  pub meets : ℕ
  pub below : ℕ
  pub unclear : ℕ
  pub only_copy : ℕ
  pub protected_replicas : ℕ
  pub excluded_groups : ℕ
  pub shadowed_rows : ℕ
  pub symlink_rows : ℕ
  pub unmatched_hardlink_rows : ℕ
  pub hardlink_aliases : ℕ
  pub unknown_content_rows : ℕ

pub record FloorReport : Type 0 where
  pub sources : List FloorSource
  pub groups : List GroupFloor
  pub excluded_groups : List GroupExclusion
  pub excluded_rows : List Exclusion
  pub unknown_content : List UnknownContent
  pub summary : FloorSummary

-- The `bail!`s of `evaluate`, and the panic of an index into a map.
pub data FloorError : Type 0 where
  floor_is_zero missing_map_key : FloorError
  status_repeated source_without_status status_of_unknown_source protected_unknown_source
        protected_repeated :
      ℤ → FloorError
