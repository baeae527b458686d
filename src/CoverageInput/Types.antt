-- ===== src/CoverageInput/Types.antt =====
-- src/core/coverage_input.rs: a registered source, and a source loaded for the coverage engine.
use backupsage.Base.{String, Option, List}
use backupsage.Base.Int.{ℤ}
use backupsage.Base.SortedMap.{SortedMap}
use backupsage.Coverage.{Bytes, SourceEvidence, CoverageRow}
use backupsage.Floors.{SourceStatus}
use backupsage.Diff.{Snapshot, SourceCurrency}
use backupsage.CoverageInput.Notes.{InputNote, InputHealth}

pub record RegistrySource : Type 0 where
  pub source_id : ℤ
  pub label : Bytes
  pub db_path : Bytes
  pub registry_status : Option String

pub data LoadCode : Type 0 where
  unknown_entry_type contradictory_content_mode registry_status source_unverified : LoadCode

-- Why a source is not shown to be readable.
pub data Unreadable : Type 0 where
  no_source_path lossy_path relative_path : Unreadable
  cannot_open : String → Unreadable
  not_established : SourceCurrency → Unreadable

-- The text of a note, by what it tells.
pub data NoteDetail : Type 0 where
  row_of_unknown_type : (file_id : ℤ) → NoteDetail
  row_carries_hash : NoteDetail
  unreadable : Unreadable → NoteDetail
  last_recorded : Option String → NoteDetail

pub record LoadNote : Type 0 where
  pub code : LoadCode
  pub detail : NoteDetail

pub record LoadedSource : Type 0 where
  pub source_id : ℤ
  pub label : Bytes
  pub db_path : Bytes
  pub registry_status : Option String
  pub source : Option Bytes
  pub source_type : Option String
  pub evidence : SourceEvidence
  pub status : SourceStatus
  pub index_notes : List InputNote
  pub notes : List LoadNote
  pub rows : List CoverageRow
  pub kinds : SortedMap ℤ String

pub record LoadedIndex : Type 0 where
  pub snapshot : Snapshot
  pub health : InputHealth
