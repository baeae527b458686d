-- ===== src/CoverageReport/Run.antt =====
-- src/core/coverage_report.rs: the summary, `build_report` and `run`. Loading the registry from a
-- master (SQLite) is a parameter.
use text.Mathlib.Text.{◌==◌ as str_eq}
use backupsage.Base.{
  ℕ, ◌+◌, ◌==◌, String, Bool, not, ◌&&◌, ◌||◌, Option, none, some, List, [], ◌∷◌, map, count,
  sum_by, length, if◌then◌else◌, Result, ok, err, ◌>>=◌,
}
use backupsage.Base.Int.{ℤ}
use backupsage.Base.Order.{int_ord}
use backupsage.Base.Sort.{sort_by}
use backupsage.Coverage.{Bytes, Coverage}
use backupsage.Floors.{FloorReport, FloorError, evaluate}
use backupsage.CoverageInput.{
  LoadedSource, LoadedIndex, RegistrySource, LoadError, PathNames, OpenSource, adhoc_registry,
  build, coverage, statuses,
}
use backupsage.CoverageReport.Scope.{ScopeError, resolve, select}
use backupsage.CoverageReport.Document.{
  CoverageScope, ReportParams, ReportSource, ReportGroup, ReportExcludedGroup, ReportUnknownRow,
  ReportExcludedRow, ReportSummary, CoverageReport,
}
use backupsage.CoverageReport.Filter.{ReportError, Glob, new_filter}
use backupsage.CoverageReport.Report.{
  report_source, report_groups, report_excluded_groups, report_unknowns, report_exclusions,
}

abbrev pub is_degraded : ReportSource → Bool
is_degraded s = not (str_eq s.evidence "complete") || not (str_eq s.status "ok")

abbrev pub with_verdict : String → List ReportGroup → ℕ
with_verdict v gs = count (λ (g : ReportGroup). str_eq g.verdict v) gs

abbrev pub with_reason : String → List ReportExcludedRow → ℕ
with_reason r es = count (λ (e : ReportExcludedRow). str_eq e.reason r) es

unfoldable pub summarize :
    ℕ
    → List ReportSource
    → List ReportGroup
    → List ReportExcludedGroup
    → List ReportUnknownRow
    → List ReportExcludedRow
    → ReportSummary
summarize min_copies sources groups excluded_groups unknown_content excluded_rows = record {
  min_copies = min_copies;
  sources = length sources;
  sources_degraded = count is_degraded sources;
  groups = length groups;
  meets_floor = with_verdict "meets_floor" groups;
  below_floor = with_verdict "below_floor" groups;
  inconclusive = with_verdict "inconclusive" groups;
  only_copy = count (λ (g : ReportGroup). g.only_copy) groups;
  protected_replicas = sum_by (λ (g : ReportGroup). g.protected_replicas) groups;
  excluded_groups = length excluded_groups;
  unknown_content_rows = length unknown_content;
  shadowed_rows = with_reason "shadowed" excluded_rows;
  symlink_rows = with_reason "symlink" excluded_rows;
  unmatched_hardlink_rows = with_reason "unmatched_hardlink" excluded_rows;
  hardlink_aliases =
      sum_by (λ (g : ReportGroup). length g.aliases) groups
      + sum_by (λ (g : ReportExcludedGroup). length g.aliases) excluded_groups;
}

abbrev pub is_complete_summary : ReportSummary → Bool
is_complete_summary s =
    s.sources_degraded == 0 && (s.inconclusive == 0 && s.unknown_content_rows == 0)

abbrev pub params_of : String → CoverageScope → Option (List ℤ) → List ℤ → ReportParams
params_of input scope archives protected = record {
  input = input;
  min_copies = scope.floor.min_copies;
  min_size = scope.floor.min_size;
  include_empty = scope.floor.include_empty;
  exts = scope.exts;
  path_glob = scope.path_glob;
  kind = scope.kind;
  archives = archives;
  protected = protected;
}

abbrev pub sorted_sources : List ℤ → List LoadedSource → List ReportSource
sorted_sources protected sources =
    sort_by (λ (s : ReportSource). s.source_id) (map (report_source protected) sources)

unfoldable pub build_report :
    Glob
    → String
    → List LoadedSource
    → Coverage
    → FloorReport
    → CoverageScope
    → Option (List ℤ)
    → List ℤ
    → Result ReportError CoverageReport
build_report glob input sources coverage floors scope archives protected = do
  filter ← new_filter scope sources
  groups ← report_groups glob filter coverage.groups floors.groups
  excluded_groups ← report_excluded_groups glob filter floors.excluded_groups
  unknown_content ← report_unknowns glob filter floors.unknown_content
  excluded_rows ← report_exclusions glob filter floors.excluded_rows
  let summary =
        summarize scope.floor.min_copies (sorted_sources protected sources) groups excluded_groups
          unknown_content excluded_rows in
      ok (record {
        version = 1;
        coverage_state = if is_complete_summary summary then "complete" else "inconclusive";
        params = params_of input scope archives protected;
        sources = sorted_sources protected sources;
        groups = groups;
        excluded_groups = excluded_groups;
        unknown_content = unknown_content;
        excluded_rows = excluded_rows;
        summary = summary;
      })

-- `CoverageReport::is_complete`
unfoldable pub is_complete : CoverageReport → Bool
is_complete r = str_eq r.coverage_state "complete"

-- Where the sources come from.
pub data InputKind : Type 0 where
  master : (path : Bytes) → InputKind
  indexes : (paths : List Bytes) → InputKind

-- What `run` asks of the file system, of SQLite and of the loaders.
pub record World : Type 0 where
  pub load_registry : Bytes → Result LoadError (List RegistrySource)
  pub names : PathNames
  pub load_index : Bytes → LoadedIndex
  pub open_source : OpenSource
  pub glob : Glob

pub data RunError : Type 0 where
  bad_scope : ScopeError → RunError
  load_failed : LoadError → RunError
  floors_refused : FloorError → RunError
  report_failed : ReportError → RunError

abbrev pub or_fail {ℓ} : {E : Type 0} {A : Type ℓ} → (E → RunError) → Result E A → Result RunError A
or_fail f (ok a) = ok a
or_fail f (err e) = err (f e)

unfoldable pub registry_of : World → InputKind → Result LoadError (List RegistrySource)
registry_of w (master path) = w.load_registry path
registry_of w (indexes paths) = adhoc_registry w.names paths

abbrev pub kind_of_input : InputKind → String
kind_of_input (master _) = "master"
kind_of_input (indexes _) = "db"

abbrev pub unless_empty : List Bytes → List ℤ → Option (List ℤ)
unless_empty [] chosen = none
unless_empty (_ ∷ _) chosen = some chosen

-- The loaded sources, and the report on them.
unfoldable pub run :
    World
    → InputKind
    → List Bytes
    → List Bytes
    → CoverageScope
    → Result RunError (List LoadedSource × CoverageReport)
run w input archives protected scope = do
  registry ← or_fail load_failed (registry_of w input)
  chosen ← or_fail bad_scope (resolve registry archives)
  let selected = select registry chosen in
      do
        shielded ← or_fail bad_scope (resolve selected protected)
        loaded ← or_fail load_failed (build w.open_source w.load_index selected)
        covered ← or_fail load_failed (coverage loaded)
        floors ← or_fail floors_refused (evaluate covered (statuses loaded) shielded scope.floor)
        report ← or_fail report_failed (
            build_report w.glob (kind_of_input input) loaded covered floors scope
              (unless_empty archives chosen) shielded)
        ok (loaded, report)
