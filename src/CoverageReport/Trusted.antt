-- ===== src/CoverageReport/Trusted.antt =====
-- src/core/coverage_report.rs: `run`: which sources of a report count toward the floor.
use backupsage.Base.{
  ◌≡◌, refl, sym, ap, subst, arith, ◌≤◌, Bool, true, ◌&&◌, ◌||◌, Option, none, some, List, [], ◌∷◌,
  map, any, All, All-imp, All-map, String, Result, ok, err, >>=-eq-ok, ok-injective,
}
use text.Mathlib.Text.{◌==◌ as str_eq}
use mathlib.Core.List.{Memᴰ}
use backupsage.Base.Members.{each_in, All-filter}
use backupsage.Base.Int.{ℤ}
use backupsage.Base.Order.{eqb, eqb_refl, int_ord}
use backupsage.Base.Sort.{sort_by, All-sort_by}
use backupsage.Coverage.{Bytes, Coverage}
use backupsage.Floors.{SourceStatus, FloorReport, counts_toward_floor, evaluate}
use backupsage.CoverageInput.{
  RegistrySource, LoadedSource, LoadedIndex, OpenSource, map_source, registry_trust, trust_of,
  note_uuid, load_all, check_registered, build, coverage, statuses, distrust, source_readable,
}
use backupsage.CoverageInput.Trust.{is_current, is_reached, recorded_distrust, map_source_trust}
use backupsage.CoverageReport.Scope.{resolve, select}
use backupsage.CoverageReport.Document.{CoverageScope, ReportSource, CoverageReport}
use backupsage.CoverageReport.Filter.{Glob, new_filter}
use backupsage.CoverageReport.Report.{
  report_source, report_groups, report_excluded_groups, report_unknowns, report_exclusions,
}
use backupsage.CoverageReport.Run.{
  World, InputKind, RunError, bad_scope, load_failed, floors_refused, report_failed, or_fail,
  registry_of, kind_of_input, unless_empty, sorted_sources, build_report, run,
}

-- Whether a status of the registry leaves it to the index whether a source counts.
abbrev pub may_count : Option String → Bool
may_count none = true
may_count (some status) =
    str_eq status "ok"
    || (str_eq status "incomplete" || (str_eq status "stale-replica" || str_eq status "v2-limited"))

-- An entry of the registry that bears a source out: its status lets the source count, and its
-- index, its file or directory, and what was read of them do too.
pub record IsBorneOut (w : World) (registry : List RegistrySource) (s : LoadedSource) : Type 0 where
  pub entry : RegistrySource
  pub is_registered : Memᴰ entry registry
  pub id_eq : s.source_id ≡ entry.source_id
  pub may : may_count entry.registry_status ≡ true
  pub reached : is_reached s.evidence ≡ true
  pub current : is_current (((w.load_index entry.db_path).snapshot).info).source_currency ≡ true
  pub readable :
      source_readable w.open_source
        ((w.load_index entry.db_path).health).source
        ((w.load_index entry.db_path).health).source_type
      ≡ ok tt

abbrev pub CountsWhenBorneOut : World → List RegistrySource → LoadedSource → Type 0
CountsWhenBorneOut w registry s = counts_toward_floor s.status ≡ true → IsBorneOut w registry s

registry_trust-may :
    (status : String) (trust : Option SourceStatus)
    → registry_trust status ≡ ok trust
    → recorded_distrust trust ≤ 1
    → may_count (some status) ≡ true
unfolding registry_trust distrust
registry_trust-may status trust h low = ground arith

trust_of-may :
    (said : Option String) (trust : Option SourceStatus)
    → trust_of said ≡ ok trust
    → recorded_distrust trust ≤ 1
    → may_count said ≡ true
trust_of-may none trust h low = refl
trust_of-may (some status) trust h low = registry_trust-may status trust h low

map_source-id :
    (open_source : OpenSource) (entry : RegistrySource) (trust : Option SourceStatus)
    (loaded : LoadedIndex)
    → (map_source open_source entry trust loaded).source_id ≡ entry.source_id
unfolding map_source
map_source-id open_source entry trust loaded = refl

load_all-BorneOut :
    (w : World) (registry : List RegistrySource) (uuids : List (String × Bytes))
    (entries : List RegistrySource) (sources : List LoadedSource)
    → All (λ e. Memᴰ e registry) entries
    → load_all w.open_source w.load_index uuids entries ≡ ok sources
    → All (CountsWhenBorneOut w registry) sources
unfolding load_all
load_all-BorneOut w registry uuids [] sources there h =
    subst (All (CountsWhenBorneOut w registry)) (ok-injective h) tt
load_all-BorneOut w registry uuids (entry ∷ rest) sources (here, there) h =
    let (trust, said, h₁) = >>=-eq-ok (trust_of entry.registry_status) _ h in
    let loaded = w.load_index entry.db_path in
    let (noted, _, h₂) =
      >>=-eq-ok (note_uuid entry.db_path ((loaded.snapshot).info).index_uuid uuids) _ h₁ in
    let (later, e, h₃) = >>=-eq-ok (load_all w.open_source w.load_index noted rest) _ h₂ in
    subst (All (CountsWhenBorneOut w registry)) (ok-injective h₃) (
      λ counts.
          let trusted = map_source_trust w.open_source entry trust loaded counts in
          record {
            entry = entry;
            is_registered = here;
            id_eq = map_source-id w.open_source entry trust loaded;
            may = trust_of-may entry.registry_status trust said trusted.recorded;
            reached = trusted.reached;
            current = trusted.current;
            readable = trusted.readable;
          },
      load_all-BorneOut w registry noted rest later there e,
    )

All-select :
    (P : RegistrySource → Type 0) (registry : List RegistrySource) (ids : List ℤ)
    → All P registry
    → All P (select registry ids)
unfolding select
All-select P registry [] h = h
All-select P registry (i ∷ ids) h = All-filter P (λ r. any (eqb r.source_id) (i ∷ ids)) registry h

-- A source of the report is shown as counting only where a loaded one with its id counts.
abbrev pub IsBacked : List LoadedSource → ReportSource → Type 0
IsBacked loaded r =
    r.counts_toward_floor ≡ true
    → any (λ (s : LoadedSource). eqb r.source_id s.source_id && counts_toward_floor s.status) loaded
      ≡ true

report_sources-IsBacked :
    (protected : List ℤ) (loaded : List LoadedSource)
    → All (λ s. IsBacked loaded (report_source protected s)) loaded
unfolding report_source
report_sources-IsBacked protected [] = tt
report_sources-IsBacked protected (s ∷ loaded) = (
  λ counts. ground (arith, counts, eqb_refl s.source_id),
  All-imp (λ t backed counts. ground (arith, backed counts)) loaded
      (report_sources-IsBacked protected loaded),
)

build_report-sources :
    (glob : Glob) (input : String) (loaded : List LoadedSource) (c : Coverage)
    (floors : FloorReport) (scope : CoverageScope) (archives : Option (List ℤ)) (protected : List ℤ)
    (r : CoverageReport)
    → build_report glob input loaded c floors scope archives protected ≡ ok r
    → r.sources ≡ sorted_sources protected loaded
unfolding build_report
build_report-sources glob input loaded c floors scope archives protected r h =
    let (f, _, h₁) = >>=-eq-ok (new_filter scope loaded) _ h in
    let (_, _, h₂) = >>=-eq-ok (report_groups glob f c.groups floors.groups) _ h₁ in
    let (_, _, h₃) = >>=-eq-ok (report_excluded_groups glob f floors.excluded_groups) _ h₂ in
    let (_, _, h₄) = >>=-eq-ok (report_unknowns glob f floors.unknown_content) _ h₃ in
    let (_, _, h₅) = >>=-eq-ok (report_exclusions glob f floors.excluded_rows) _ h₄ in
    sym (ap (λ (q : CoverageReport). q.sources) (ok-injective h₅))

or_fail-eq-ok :
    {E A : Type 0} (f : E → RunError) (m : Result E A) {a : A} → or_fail f m ≡ ok a → m ≡ ok a
or_fail-eq-ok f (ok b) h = ap ok (ok-injective h)
or_fail-eq-ok f (err e) h = cc

-- When `run` succeeds, the registry could be read. A source that the report shows as counting
-- toward the floor is a loaded source that counts; and a loaded source counts only when an entry of
-- the registry has its id and no status, or one of `ok`, `incomplete`, `stale-replica` and
-- `v2-limited`, and when that entry's index could be used, gives as currency that the source matches
-- its record or is a directory (which is not compared with its record), and names a source that was
-- opened for reading.
pub run_trust :
    (w : World) (input : InputKind) (archives protected : List Bytes) (scope : CoverageScope)
    (loaded : List LoadedSource) (report : CoverageReport)
    → run w input archives protected scope ≡ ok (loaded, report)
    → (registry : List RegistrySource) × (registry_of w input ≡ ok registry)
      × All (IsBacked loaded) report.sources
      × All (CountsWhenBorneOut w registry) loaded
unfolding run build
run_trust w input archives protected scope loaded report h =
    let (registry, known, h₁) = >>=-eq-ok (or_fail load_failed (registry_of w input)) _ h in
    let (chosen, _, h₂) = >>=-eq-ok (or_fail bad_scope (resolve registry archives)) _ h₁ in
    let selected = select registry chosen in
    let (shielded, _, h₃) = >>=-eq-ok (or_fail bad_scope (resolve selected protected)) _ h₂ in
    let (sources, e, h₄) =
      >>=-eq-ok (or_fail load_failed (build w.open_source w.load_index selected)) _ h₃ in
    let (covered, _, h₅) = >>=-eq-ok (or_fail load_failed (coverage sources)) _ h₄ in
    let (floors, _, h₆) =
      >>=-eq-ok (or_fail floors_refused (evaluate covered (statuses sources) shielded scope.floor))
        _ h₅ in
    let (r, b, h₇) =
      >>=-eq-ok
        (or_fail report_failed (
          build_report w.glob (kind_of_input input) sources covered floors scope
            (unless_empty archives chosen) shielded))
        _ h₆ in
    let ordered = sort_by (λ (r : RegistrySource). r.source_id) selected in
    let (_, _, k) =
      >>=-eq-ok (check_registered ordered) _
        (or_fail-eq-ok load_failed (build w.open_source w.load_index selected) e) in
    let there =
      All-sort_by (λ (r : RegistrySource). r.source_id) (λ e. Memᴰ e registry) selected
        (All-select (λ e. Memᴰ e registry) registry chosen (each_in registry)) in
    let trusted = load_all-BorneOut w registry [] ordered sources there k in
    let shown =
      build_report-sources w.glob (kind_of_input input) sources covered floors scope
        (unless_empty archives chosen) shielded r
        (or_fail-eq-ok report_failed
          (build_report w.glob (kind_of_input input) sources covered floors scope
            (unless_empty archives chosen) shielded)
          b) in
    let backed : All (IsBacked sources) r.sources = subst (All (IsBacked sources)) (sym shown) (
      All-sort_by (λ (s : ReportSource). s.source_id) (IsBacked sources)
        (map (report_source shielded) sources)
        (All-map (IsBacked sources) (report_source shielded) sources
          (report_sources-IsBacked shielded sources))) in
    let both =
      subst
        (λ (p : List LoadedSource × CoverageReport).
          All (IsBacked p.0) p.1.sources × All (CountsWhenBorneOut w registry) p.0)
        (ok-injective h₇) (backed, trusted) in
    (registry, or_fail-eq-ok load_failed (registry_of w input) known, both.0, both.1)
