-- ===== src/Coverage/Types.antt =====
-- src/core/coverage.rs: the data types of the coverage engine.
use backupsage.Base.{ℕ, List, Option}
use backupsage.Base.Int.{ℤ}
use backupsage.Base.Order.{pair_ord, list_ord, nat_ord, int_ord}

-- `Vec<u8>` and `[u8; 32]`
abbrev pub Bytes : Type 0
Bytes = List ℕ

-- How much of a source's content the caller could observe.
pub data SourceEvidence : Type 0 where
  complete incomplete unavailable no_content_hashes unreachable : SourceEvidence

pub data EntryKind : Type 0 where
  file hardlink symlink : EntryKind

pub record CoverageRow : Type 0 where
  pub file_id : ℤ
  pub path_raw : Bytes
  pub entry : EntryKind
  pub size : Option ℕ
  pub content_hash : Option Bytes
  pub flags : ℕ

pub record CoverageSource : Type 0 where
  pub source_id : ℤ
  pub label : Bytes
  pub evidence : SourceEvidence
  pub rows : List CoverageRow

pub record RowRef : Type 0 where
  pub source_id : ℤ
  pub path_raw : Bytes
  pub file_id : ℤ

-- The derived order of `RowRef` is that of its fields, in order.
abbrev pub row_key : RowRef → ℤ × (Bytes × ℤ)
row_key r = (r.source_id, (r.path_raw, r.file_id))

pub data ReplicaCount : Type 0 where
  exact at_least : ℕ → ReplicaCount

pub data UnknownReason : Type 0 where
  source_unavailable source_incomplete source_has_no_content_hashes source_unreachable :
      UnknownReason
  unhashed_rows_may_match : (rows : ℕ) → UnknownReason

pub data Presence : Type 0 where
  present : (copies : ℕ) → Presence
  absent : Presence
  unknown : UnknownReason → Presence

pub record SourcePresence : Type 0 where
  pub source_id : ℤ
  pub presence : Presence

pub record ContentGroup : Type 0 where
  pub content_hash : Bytes
  pub size : Option ℕ
  pub replicas : ReplicaCount
  pub presence : List SourcePresence
  pub copies : List RowRef
  pub aliases : List RowRef

pub data UnknownContentReason : Type 0 where
  read_error unsupported_sparse pax_unparsed not_hashed legacy_name_uncertain : UnknownContentReason

pub record UnknownContent : Type 0 where
  pub row : RowRef
  pub size : Option ℕ
  pub reason : UnknownContentReason

pub data ExclusionReason : Type 0 where
  shadowed symlink_entry unmatched_hardlink : ExclusionReason

pub record Exclusion : Type 0 where
  pub row : RowRef
  pub reason : ExclusionReason

pub record SourceInfo : Type 0 where
  pub source_id : ℤ
  pub label : Bytes
  pub evidence : SourceEvidence

pub record Coverage : Type 0 where
  pub sources : List SourceInfo
  pub groups : List ContentGroup
  pub unknown_content : List UnknownContent
  pub exclusions : List Exclusion

-- What stops the grouping: the `bail!`s, and the panic of an index into a map.
pub data CoverageError : Type 0 where
  duplicate_source_id : ℤ → CoverageError
  unavailable_but_carries_rows : ℤ → CoverageError
  no_hashes_but_row_carries_one : ℤ → CoverageError
  repeated_file_id : (source_id file_id : ℤ) → CoverageError
  missing_map_key : CoverageError
