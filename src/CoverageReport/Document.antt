-- ===== src/CoverageReport/Document.antt =====
-- src/core/coverage_report.rs: the JSON document. Texts and paths are bytes; fixed words are
-- `String`s.
use backupsage.Base.{ℕ, String, Bool, Option, List}
use backupsage.Base.Int.{ℤ}
use backupsage.Coverage.{Bytes}
use backupsage.Floors.{FloorParams}
use backupsage.CoverageInput.{NoteDetail}

pub record CoverageScope : Type 0 where
  pub floor : FloorParams
  pub exts : List Bytes
  pub path_glob : Option Bytes
  pub kind : Option String

pub record ReportParams : Type 0 where
  pub input : String
  pub min_copies : ℕ
  pub min_size : ℕ
  pub include_empty : Bool
  pub exts : List Bytes
  pub path_glob : Option Bytes
  pub kind : Option String
  pub archives : Option (List ℤ)
  pub protected : List ℤ

pub record ReportNote (D : Type 0) : Type 0 where
  pub code : String
  pub detail : D

pub record ReportSource : Type 0 where
  pub source_id : ℤ
  pub label : Bytes
  pub db_path : Bytes
  pub db_path_bytes : Bytes
  pub source : Option Bytes
  pub source_type : Option String
  pub registry_status : Option String
  pub evidence : String
  pub status : String
  pub counts_toward_floor : Bool
  pub protected : Bool
  pub rows : ℕ
  pub index_notes : List (ReportNote String)
  pub notes : List (ReportNote NoteDetail)

pub record ReportReplicas : Type 0 where
  pub observed : ℕ
  pub exact : Bool

pub record ReportPresence : Type 0 where
  pub source_id : ℤ
  pub state : String
  pub copies : Option ℕ
  pub reason : Option String
  pub unhashed_rows : Option ℕ

pub record ReportCopy : Type 0 where
  pub source_id : ℤ
  pub label : Bytes
  pub path : Bytes
  pub path_bytes : Bytes
  pub file_id : ℤ
  pub status : String
  pub counts_toward_floor : Bool
  pub protected : Bool

pub record ReportRow : Type 0 where
  pub source_id : ℤ
  pub path : Bytes
  pub path_bytes : Bytes
  pub file_id : ℤ

pub record ReportGroup : Type 0 where
  pub content_hash : Bytes
  pub size : Option ℕ
  pub verdict : String
  pub only_copy : Bool
  pub replicas : ReportReplicas
  pub trusted_replicas : ℕ
  pub untrusted_replicas : ℕ
  pub protected_replicas : ℕ
  pub unknown_sources : ℕ
  pub presence : List ReportPresence
  pub copies : List ReportCopy
  pub aliases : List ReportRow

pub record ReportExcludedGroup : Type 0 where
  pub content_hash : Bytes
  pub size : Option ℕ
  pub reason : String
  pub copies : List ReportCopy
  pub aliases : List ReportRow

pub record ReportUnknownRow : Type 0 where
  pub row : ReportRow
  pub size : Option ℕ
  pub reason : String

pub record ReportExcludedRow : Type 0 where
  pub row : ReportRow
  pub reason : String

pub record ReportSummary : Type 0 where
  pub min_copies : ℕ
  pub sources : ℕ
  pub sources_degraded : ℕ
  pub groups : ℕ
  pub meets_floor : ℕ
  pub below_floor : ℕ
  pub inconclusive : ℕ
  pub only_copy : ℕ
  pub protected_replicas : ℕ
  pub excluded_groups : ℕ
  pub unknown_content_rows : ℕ
  pub shadowed_rows : ℕ
  pub symlink_rows : ℕ
  pub unmatched_hardlink_rows : ℕ
  pub hardlink_aliases : ℕ

pub record CoverageReport : Type 0 where
  pub version : ℕ
  pub coverage_state : String
  pub params : ReportParams
  pub sources : List ReportSource
  pub groups : List ReportGroup
  pub excluded_groups : List ReportExcludedGroup
  pub unknown_content : List ReportUnknownRow
  pub excluded_rows : List ReportExcludedRow
  pub summary : ReportSummary
