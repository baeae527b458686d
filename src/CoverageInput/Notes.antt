-- ===== src/CoverageInput/Notes.antt =====
-- src/core/index_read.rs: what reading an index may note; src/core/diff_input.rs: `InputHealth`.
use backupsage.Base.{ℕ, String, Option, List}
use backupsage.Coverage.{Bytes}

pub data NoteCode : Type 0 where
  index_missing index_unreadable not_a_backupsage_index pending_journal wal_mode_index
        index_multiply_linked index_busy index_changed_during_read index_incomplete
        unsupported_schema unsupported_hash_algo missing_index_uuid metadata_only_index
        source_not_recorded source_path_relative source_path_lossy source_stat_not_recorded
        source_offline source_denied source_stale source_stat_matches source_directory_unverified
        legacy_lossy_paths legacy_sparse_index :
      NoteCode

-- The name used in JSON.
unfoldable pub as_str : NoteCode → String
as_str index_missing = "index_missing"
as_str index_unreadable = "index_unreadable"
as_str not_a_backupsage_index = "not_a_backupsage_index"
as_str pending_journal = "pending_journal"
as_str wal_mode_index = "wal_mode_index"
as_str index_multiply_linked = "index_multiply_linked"
as_str index_busy = "index_busy"
as_str index_changed_during_read = "index_changed_during_read"
as_str index_incomplete = "index_incomplete"
as_str unsupported_schema = "unsupported_schema"
as_str unsupported_hash_algo = "unsupported_hash_algo"
as_str missing_index_uuid = "missing_index_uuid"
as_str metadata_only_index = "metadata_only_index"
as_str source_not_recorded = "source_not_recorded"
as_str source_path_relative = "source_path_relative"
as_str source_path_lossy = "source_path_lossy"
as_str source_stat_not_recorded = "source_stat_not_recorded"
as_str source_offline = "source_offline"
as_str source_denied = "source_denied"
as_str source_stale = "source_stale"
as_str source_stat_matches = "source_stat_matches"
as_str source_directory_unverified = "source_directory_unverified"
as_str legacy_lossy_paths = "legacy_lossy_paths"
as_str legacy_sparse_index = "legacy_sparse_index"

pub record InputNote : Type 0 where
  pub code : NoteCode
  pub detail : String

pub record InputHealth : Type 0 where
  pub db_path : Bytes
  pub db_path_bytes : Bytes
  pub source : Option Bytes
  pub source_type : Option String
  pub content_mode : Option String
  pub rows : ℕ
  pub notes : List InputNote
