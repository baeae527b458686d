-- ===== src/Diff/Types.antt =====
-- src/core/diff.rs: the data types of the snapshot comparison.
use backupsage.Base.{
  ℕ, ◌+◌, ◌-◌, ◌/◌, ◌%◌, ltb, if◌then◌else◌, String, Option, none, some, List, [], ◌∷◌,
}
use backupsage.Base.Int.{ℤ}
use backupsage.Coverage.{Bytes}
use backupsage.Legacy.{from_utf8_lossy}

pub data SnapshotState : Type 0 where
  complete incomplete unavailable incompatible : SnapshotState

pub data SourceCurrency : Type 0 where
  not_checked stat_matches stale offline denied directory_unverified : SourceCurrency

pub record SnapshotInfo : Type 0 where
  pub index_uuid : Option String
  pub schema_version : Option ℤ
  pub hash_algo : Option String
  pub state : SnapshotState
  pub source_currency : SourceCurrency

pub data EntryType : Type 0 where
  file hardlink symlink unsupported : EntryType

pub record Entry : Type 0 where
  pub file_id : ℤ
  pub path : Bytes
  pub entry_type : EntryType
  pub link_target : Option Bytes
  pub size : ℕ
  pub mtime_unix : Option ℤ
  pub mode : Option ℕ
  pub content_hash : Option Bytes
  pub flags : ℕ
  pub kind : Option String

pub record Snapshot : Type 0 where
  pub info : SnapshotInfo
  pub entries : List Entry

pub data Side : Type 0 where
  before after : Side

pub data ChangeKind : Type 0 where
  added removed moved byte_identical metadata_only_changed content_changed inconclusive : ChangeKind

pub data Reason : Type 0 where
  path_absent unique_content_correspondence equal_content_and_metadata
        equal_content_different_metadata different_content missing_content_evidence
        inconsistent_content_evidence missing_metadata_evidence unsupported_entry_type
        other_snapshot_incomplete incompatible_snapshots shadowed_path legacy_name_uncertain :
      Reason

pub record ReportEntry : Type 0 where
  pub file_id : ℤ
  pub path : Bytes
  pub path_bytes : Bytes
  pub entry_type : EntryType
  pub link_target_bytes : Option Bytes
  pub size : ℕ
  pub mtime_unix : Option ℤ
  pub mode : Option ℕ
  pub content_hash : Option Bytes
  pub flags : ℕ

-- `report::to_hex`: two lowercase digits for each byte.
unfoldable pub hex_digit : ℕ → ℕ
hex_digit d = if ltb d 10 then b'0' + d else b'a' + (d - 10)

unfoldable pub to_hex : Bytes → Bytes
unfolding hex_digit
to_hex [] = []
to_hex (b ∷ bytes) = hex_digit (b / 16) ∷ hex_digit (b % 16) ∷ to_hex bytes

abbrev hex_option : Option Bytes → Option Bytes
hex_option none = none
hex_option (some bytes) = some (to_hex bytes)

abbrev tagged_hash : Option Bytes → Option Bytes
tagged_hash none = none
tagged_hash (some hash) = some (b'b' ∷ b'3' ∷ b':' ∷ to_hex hash)

-- `impl From<&Entry> for ReportEntry`
unfoldable pub report_entry : Entry → ReportEntry
report_entry e = record {
  file_id = e.file_id;
  path = from_utf8_lossy e.path;
  path_bytes = to_hex e.path;
  entry_type = e.entry_type;
  link_target_bytes = hex_option e.link_target;
  size = e.size;
  mtime_unix = e.mtime_unix;
  mode = e.mode;
  content_hash = tagged_hash e.content_hash;
  flags = e.flags;
}

pub record Change : Type 0 where
  pub kind : ChangeKind
  pub reason : Reason
  pub before : Option ReportEntry
  pub after : Option ReportEntry

pub record Excluded : Type 0 where
  pub side : Side
  pub reason : Reason
  pub entry : ReportEntry

pub record Summary : Type 0 where
  pub added : ℕ
  pub removed : ℕ
  pub moved : ℕ
  pub byte_identical : ℕ
  pub metadata_only_changed : ℕ
  pub content_changed : ℕ
  pub inconclusive : ℕ
  pub excluded : ℕ

pub record DiffReport : Type 0 where
  pub version : ℕ
  pub before : SnapshotInfo
  pub after : SnapshotInfo
  pub comparison_state : SnapshotState
  pub changes : List Change
  pub excluded : List Excluded
  pub summary : Summary

-- The failed `ensure!`s, and the panics of an index into a map and of an `expect`.
pub data DiffError : Type 0 where
  unavailable_but_carries_rows invalid_file_id missing_map_key missing_hash : DiffError
