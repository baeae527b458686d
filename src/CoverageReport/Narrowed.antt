-- ===== src/CoverageReport/Narrowed.antt =====
-- src/core/coverage_report.rs: what a path filter does to a report.
use backupsage.Base.{
  ◌≡◌, refl, arith, ◌+◌, ◌≤◌, String, Bool, Option, none, List, [], map, count, count-map, ok,
  >>=-eq-ok, ok-injective,
}
use backupsage.Base.Int.{ℤ}
use backupsage.Base.Order.{Ord, int_ord, nat_ord, pair_ord, list_ord}
use backupsage.Base.Sort.{sort_by, count-sort_by}
use backupsage.Coverage.{RowRef, ContentGroup, UnknownContent, Exclusion, Coverage}
use backupsage.Floors.{GroupFloor, GroupExclusion, FloorReport}
use backupsage.CoverageInput.{LoadedSource}
use backupsage.CoverageReport.Document.{
  CoverageScope, ReportGroup, ReportExcludedGroup, ReportUnknownRow, ReportExcludedRow,
  CoverageReport,
}
use backupsage.CoverageReport.Filter.{Glob, PathFilter, new_filter}
use backupsage.CoverageReport.Report.{
  collect, report_groups, report_excluded_groups, report_unknowns, report_exclusions,
}
use backupsage.CoverageReport.Run.{summarize, build_report}
use backupsage.CoverageReport.Collected.{
  open_filter, collect-narrows, verdicts_total, report_groups-HasVerdict,
}

-- The same scope without `--ext`, `--path-glob` and `--kind`.
abbrev pub widened : CoverageScope → CoverageScope
widened scope = record scope { exts = []; path_glob = none; kind = none }

-- Sorting, and mapping after it, keeps how often a test holds.
sorted-le :
    {A B K : Type 0} ⦃o : Ord K⦄ (key : A → K) (f : A → B) (xs ys : List A)
    → ((test : A → Bool) → count test xs ≤ count test ys)
    → (test : B → Bool) → count test (map f (sort_by key xs)) ≤ count test (map f (sort_by key ys))
sorted-le {A} key f xs ys h test =
    let p : A → Bool = λ a. test (f a) in
    omega (
      arith,
      count-map test f (sort_by key xs),
      count-map test f (sort_by key ys),
      count-sort_by key p xs,
      count-sort_by key p ys,
      h p,
    )

module _ (glob : Glob) (f : PathFilter) where
  groups-narrow :
      (engine : List ContentGroup) (gs : List GroupFloor) (r r' : List ReportGroup)
      → report_groups glob f engine gs ≡ ok r
      → report_groups glob open_filter engine gs ≡ ok r'
      → (test : ReportGroup → Bool) → count test r ≤ count test r'
  unfolding report_groups
  groups-narrow engine gs r r' h k test =
      let (ys, e, h₁) = >>=-eq-ok (collect glob f _ _ gs) _ h in
      let (zs, e', k₁) = >>=-eq-ok (collect glob open_filter _ _ gs) _ k in
      let key = λ (g : ReportGroup). g.content_hash in
      rw (← ok-injective h₁, ← ok-injective k₁)
        (omega (
          arith,
          count-sort_by key test ys,
          count-sort_by key test zs,
          collect-narrows glob f _ _ gs ys zs e e' test,
        ))

  excluded-narrow :
      (gs : List GroupExclusion) (r r' : List ReportExcludedGroup)
      → report_excluded_groups glob f gs ≡ ok r
      → report_excluded_groups glob open_filter gs ≡ ok r'
      → (test : ReportExcludedGroup → Bool) → count test r ≤ count test r'
  unfolding report_excluded_groups
  excluded-narrow gs r r' h k test =
      let (ys, e, h₁) = >>=-eq-ok (collect glob f _ _ gs) _ h in
      let (zs, e', k₁) = >>=-eq-ok (collect glob open_filter _ _ gs) _ k in
      let key = λ (g : ReportExcludedGroup). g.content_hash in
      rw (← ok-injective h₁, ← ok-injective k₁)
        (omega (
          arith,
          count-sort_by key test ys,
          count-sort_by key test zs,
          collect-narrows glob f _ _ gs ys zs e e' test,
        ))

  unknowns-narrow :
      (us : List UnknownContent) (r r' : List ReportUnknownRow)
      → report_unknowns glob f us ≡ ok r
      → report_unknowns glob open_filter us ≡ ok r'
      → (test : ReportUnknownRow → Bool) → count test r ≤ count test r'
  unfolding report_unknowns
  unknowns-narrow us r r' h k test =
      let (ys, e, h₁) = >>=-eq-ok (collect glob f _ _ us) _ h in
      let (zs, e', k₁) = >>=-eq-ok (collect glob open_filter _ _ us) _ k in
      rw (← ok-injective h₁, ← ok-injective k₁)
        (sorted-le _ (λ (e : RowRef × ReportUnknownRow). e.1) ys zs
          (collect-narrows glob f _ _ us ys zs e e') test)

  exclusions-narrow :
      (es : List Exclusion) (r r' : List ReportExcludedRow)
      → report_exclusions glob f es ≡ ok r
      → report_exclusions glob open_filter es ≡ ok r'
      → (test : ReportExcludedRow → Bool) → count test r ≤ count test r'
  unfolding report_exclusions
  exclusions-narrow es r r' h k test =
      let (ys, e, h₁) = >>=-eq-ok (collect glob f _ _ es) _ h in
      let (zs, e', k₁) = >>=-eq-ok (collect glob open_filter _ _ es) _ k in
      rw (← ok-injective h₁, ← ok-injective k₁)
        (sorted-le _ (λ (e : RowRef × ReportExcludedRow). e.1) ys zs
          (collect-narrows glob f _ _ es ys zs e e') test)

-- Each list of the first report holds nothing that the second one does not hold, as it stands
-- there and as often; the sources are the same.
pub record IsNarrower (r r' : CoverageReport) : Type 0 where
  pub sources : r.sources ≡ r'.sources
  pub groups : (test : ReportGroup → Bool) → count test r.groups ≤ count test r'.groups
  pub excluded_groups :
      (test : ReportExcludedGroup → Bool)
      → count test r.excluded_groups ≤ count test r'.excluded_groups
  pub unknown_content :
      (test : ReportUnknownRow → Bool)
      → count test r.unknown_content ≤ count test r'.unknown_content
  pub excluded_rows :
      (test : ReportExcludedRow → Bool) → count test r.excluded_rows ≤ count test r'.excluded_rows

-- Leaving out `--ext`, `--path-glob` and `--kind` only adds to a report: each group, row and source
-- that the filtered report shows, with all its copies and counts, stands in the unfiltered one as
-- it is. And the groups of the summary are those that meet the floor, are below it, or are
-- inconclusive.
pub build_report_narrows :
    (glob : Glob) (input : String) (sources : List LoadedSource) (coverage : Coverage)
    (floors : FloorReport) (scope : CoverageScope) (archives : Option (List ℤ)) (protected : List ℤ)
    (r r' : CoverageReport)
    → build_report glob input sources coverage floors scope archives protected ≡ ok r
    → build_report glob input sources coverage floors (widened scope) archives protected ≡ ok r'
    → IsNarrower r r'
      × (r.summary.groups ≡ r.summary.meets_floor + r.summary.below_floor + r.summary.inconclusive)
unfolding build_report new_filter summarize
build_report_narrows glob input sources coverage floors scope archives protected r r' h k =
    let (f, _, h₁) = >>=-eq-ok (new_filter scope sources) _ h in
    let (groups, g, h₂) = >>=-eq-ok (report_groups glob f coverage.groups floors.groups) _ h₁ in
    let (excluded, x, h₃) = >>=-eq-ok (report_excluded_groups glob f floors.excluded_groups) _ h₂ in
    let (unknowns, u, h₄) = >>=-eq-ok (report_unknowns glob f floors.unknown_content) _ h₃ in
    let (rows, e, h₅) = >>=-eq-ok (report_exclusions glob f floors.excluded_rows) _ h₄ in
    let (groups', g', k₂) =
      >>=-eq-ok (report_groups glob open_filter coverage.groups floors.groups) _ k in
    let (excluded', x', k₃) =
      >>=-eq-ok (report_excluded_groups glob open_filter floors.excluded_groups) _ k₂ in
    let (unknowns', u', k₄) =
      >>=-eq-ok (report_unknowns glob open_filter floors.unknown_content) _ k₃ in
    let (rows', e', k₅) =
      >>=-eq-ok (report_exclusions glob open_filter floors.excluded_rows) _ k₄ in
    rw (← ok-injective h₅, ← ok-injective k₅)
      (
        record {
          sources = refl;
          groups = groups-narrow glob f coverage.groups floors.groups groups groups' g g';
          excluded_groups = excluded-narrow glob f floors.excluded_groups excluded excluded' x x';
          unknown_content = unknowns-narrow glob f floors.unknown_content unknowns unknowns' u u';
          excluded_rows = exclusions-narrow glob f floors.excluded_rows rows rows' e e';
        },
        verdicts_total groups
            (report_groups-HasVerdict glob f coverage.groups floors.groups groups g),
      )
