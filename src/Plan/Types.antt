-- ===== src/Plan/Types.antt =====
-- src/core/plan.rs: the data types of the plan document. A `String` is its bytes.
use native.Mathlib.Decide.{ℕ_discrete}
use backupsage.Base.{ℕ, Bool, Option, List}
use backupsage.Base.Int.{ℤ}
use backupsage.Coverage.{Bytes}

pub data PlanKind : Type 0 where
  organize extract dedup : PlanKind

pub data Layout : Type 0 where
  year_month : Layout

pub data DateSource : Type 0 where
  exif mtime archive_date : DateSource

pub data ConflictRule : Type 0 where
  suffix_ordinal : ConflictRule

pub record OrganizePolicy : Type 0 where
  pub layout : Layout
  pub unknown_date_dir : Bytes
  pub date_source_order : List DateSource
  pub conflict_rule : ConflictRule

pub data Selection : Type 0 where
  explicit glob all : Selection

pub record ExtractPolicy : Type 0 where
  pub selection : Selection

pub data MatchKind : Type 0 where
  exact near : MatchKind

pub record DedupPolicy : Type 0 where
  pub match_kinds : List MatchKind
  pub near_threshold : ℕ
  pub min_size : ℕ
  pub include_empty : Bool
  pub across_only : Bool
  pub replica_floor : ℕ
  pub keep_policy : Bytes

pub data Policy : Type 0 where
  for_organize : OrganizePolicy → Policy
  for_extract : ExtractPolicy → Policy
  for_dedup : DedupPolicy → Policy

pub data RootRole : Type 0 where
  source destination quarantine : RootRole

pub data ContentMode : Type 0 where
  full search_only metadata_only : ContentMode

pub data SourceType : Type 0 where
  tar dir : SourceType

pub data NoFingerprintReason : Type 0 where
  directory_source_v1 : NoFingerprintReason

pub data Fingerprint : Type 0 where
  archive_blake3 : (value : Bytes) (size : ℕ) (mtime_unix : Option ℤ) → Fingerprint
  no_fingerprint : (reason : NoFingerprintReason) → Fingerprint

pub record SourceBinding : Type 0 where
  pub label : Bytes
  pub index_uuid : Bytes
  pub index_schema_version : ℤ
  pub content_mode : ContentMode
  pub hash_algo : Bytes
  pub phash_algo : Bytes
  pub files_indexed : ℕ
  pub source_type : SourceType
  pub fingerprint : Fingerprint

pub record Root : Type 0 where
  pub root_id : ℕ
  pub role : RootRole
  pub path_display : Bytes
  pub path_raw : Bytes
  pub source : Option SourceBinding

pub record SourceRef : Type 0 where
  pub root_id : ℕ
  pub file_id : ℤ
  pub parts_raw : List Bytes
  pub display : Bytes
  pub content_hash : Bytes
  pub size : ℕ
  pub mtime_unix : Option ℤ

pub record DestPath : Type 0 where
  pub root_id : ℕ
  pub parts_raw : List Bytes
  pub display : Bytes

-- An `EntryKey` is the pair (root_id, file_id), in its derived order.
abbrev pub EntryKey : Type 0
EntryKey = ℕ × ℤ

pub data Conflict : Type 0 where
  unsuffixed : Conflict
  suffixed : (ordinal : ℕ) (competing_with : List EntryKey) → Conflict

pub data Op : Type 0 where
  mkdir : (dest : DestPath) → Op
  move : (source : SourceRef) (dest : DestPath) (conflict : Conflict) → Op
  extract : (source : SourceRef) (dest : DestPath) (conflict : Conflict) → Op
  quarantine : (source : SourceRef) (dest : DestPath) (group_id slot : Bytes) → Op

pub record Action : Type 0 where
  pub action_id : Bytes
  pub ordinal : ℕ
  pub op : Op

pub data Disposition : Type 0 where
  keep quarantine leave : Disposition

pub record GroupKeeper : Type 0 where
  pub entry : SourceRef
  pub reason : Bytes

pub record GroupMember : Type 0 where
  pub entry : SourceRef
  pub disposition : Disposition
  pub reason : Bytes
  pub actionable : Bool
  pub hamming_to_keep : Option ℕ
  pub shadowed : Bool
  pub sparse : Bool

pub data CountedScope : Type 0 where
  registered_reachable_archives : CountedScope

pub record ReplicaFloor : Type 0 where
  pub required : ℕ
  pub observed : ℕ
  pub remaining_after : ℕ
  pub counted_scope : CountedScope

pub record Group : Type 0 where
  pub group_id : Bytes
  pub match_kind : MatchKind
  pub max_distance : ℕ
  pub keeper : GroupKeeper
  pub members : List GroupMember
  pub replica_floor : ReplicaFloor
  pub reclaimable_bytes : ℕ
  pub review_only_bytes : ℕ

pub record Excluded : Type 0 where
  pub root_id : ℕ
  pub file_id : ℤ
  pub parts_raw : List Bytes
  pub display : Bytes
  pub content_hash : Option Bytes
  pub size : ℕ
  pub mtime_unix : Option ℤ
  pub reason : Bytes

pub record OpCount : Type 0 where
  pub op : Bytes
  pub count : ℕ

pub record Summary : Type 0 where
  pub actions_total : ℕ
  pub actions_by_op : List OpCount
  pub bytes_affected : ℕ
  pub groups_total : ℕ
  pub excluded_total : ℕ
  pub excluded_bytes : ℕ
  pub roots_written : List ℕ

pub record Plan : Type 0 where
  pub plan_schema_version : ℕ
  pub kind : PlanKind
  pub policy : Policy
  pub roots : List Root
  pub actions : List Action
  pub groups : List Group
  pub excluded : List Excluded
  pub summary : Summary

-- The derived `PartialEq` of the document.
unfoldable pub SourceRef-discrete : Discrete SourceRef
SourceRef-discrete = hlevel ℕ_discrete

unfoldable pub Plan-discrete : Discrete Plan
Plan-discrete = hlevel ℕ_discrete
