-- ===== src/Coverage/Partition.antt =====
-- Every input row appears in the result exactly once.
mod Rows
use backupsage.Base.{
  ℕ, ◌+◌, ◌≡◌, refl, Bool, List, [], ◌∷◌, map, count, sum_by, flat_map, Result, ok, >>=-eq-ok,
  ok-injective, arith, count-append, count-flat_map, count-map, subst,
}
use backupsage.Base.Int.{ℤ}
use backupsage.Base.SortedMap.{weigh}
use backupsage.Base.Sort.{sort_by, count-sort_by, sum_by-sort_by}
use backupsage.Base.Order.{int_ord, nat_ord, list_ord, pair_ord}
use backupsage.Coverage.Types.{
  Bytes, CoverageRow, CoverageSource, RowRef, row_key, UnknownContent, Exclusion, ContentGroup,
  Coverage,
}
use backupsage.Coverage.Scan.{
  Building, Groups, Progress, Scan, row_ref, start_scan, scan_source, scan_sources, check_evidence,
  latest_from, scan_rows,
}
use backupsage.Coverage.Rows.{UnknownRows}
use backupsage.Coverage.Grouping.{
  finish_group, finish, check_distinct, no_progress, in_id_order, group,
}
use Rows.{
  weight, unknown_weight, excluded_weight, groups_weight, scan_weight-scan_rows,
  linked_weight-link_rows,
}

-- The rows of the input, by the source that they come from.
abbrev pub input_rows : List CoverageSource → List RowRef
input_rows sources = flat_map (λ s. map (row_ref s.source_id) s.rows) sources

-- The rows that the result lists as copies, as aliases, as unknown content and as exclusions.
abbrev pub copy_rows : Coverage → List RowRef
copy_rows c = flat_map (λ g. g.copies) c.groups

abbrev pub alias_rows : Coverage → List RowRef
alias_rows c = flat_map (λ g. g.aliases) c.groups

abbrev pub unknown_rows : Coverage → List RowRef
unknown_rows c = map (λ u. u.row) c.unknown_content

abbrev pub excluded_rows : Coverage → List RowRef
excluded_rows c = map (λ e. e.row) c.exclusions

module _ (p : RowRef → Bool) where
  abbrev progress_weight : Progress → ℕ
  progress_weight g =
      groups_weight p g.groups + unknown_weight p g.unknown_content + excluded_weight p g.exclusions

  abbrev source_weight : CoverageSource → ℕ
  source_weight s = count p (map (row_ref s.source_id) s.rows)

  progress_weight-scan_source :
      (s : CoverageSource) (before : Progress) {after : Progress}
      → scan_source s before ≡ ok after
      → progress_weight after ≡ progress_weight before + source_weight s
  unfolding scan_source
  progress_weight-scan_source s before e =
      let (_, _, e') = >>=-eq-ok (check_evidence s.evidence s.source_id s.rows) _ e in
      let (latest, _, e'') = >>=-eq-ok (latest_from s.source_id [] [] s.rows) _ e' in
      let (t, scanned, done) =
        >>=-eq-ok (scan_rows s.source_id latest s.rows (start_scan before)) _ e'' in
      subst (λ q. progress_weight q ≡ progress_weight before + source_weight s) (ok-injective done)
        (omega (
          arith,
          scan_weight-scan_rows p s.source_id latest s.rows (start_scan before) scanned,
          linked_weight-link_rows p s.source_id t.hardlinks (t.groups, t.exclusions),
          count-map p (row_ref s.source_id) s.rows,
        ))

  progress_weight-scan_sources :
      (sources : List CoverageSource) (before : Progress) {after : Progress}
      → scan_sources sources before ≡ ok after
      → progress_weight after ≡ progress_weight before + sum_by source_weight sources
  unfolding scan_sources
  progress_weight-scan_sources [] before e = ground arith
  progress_weight-scan_sources (s ∷ sources) before e =
      let (next, first, rest) = >>=-eq-ok (scan_source s before) (scan_sources sources) e in
      omega (
        arith,
        progress_weight-scan_source s before first,
        progress_weight-scan_sources sources next rest,
      )

  finished_weight :
      (ordered : List CoverageSource) (us : List UnknownRows) (gs : Groups)
      → count p (flat_map (λ g. g.copies) (map (finish_group ordered us) gs))
          + count p (flat_map (λ g. g.aliases) (map (finish_group ordered us) gs))
        ≡ groups_weight p gs
  unfolding finish_group
  finished_weight ordered us [] = refl
  finished_weight ordered us ((hash, b) ∷ gs) = omega (
    arith,
    finished_weight ordered us gs,
    count-append p (sort_by row_key (flat_map (λ e. e.1) b.copies)) _,
    count-append p (sort_by row_key b.aliases) _,
    count-sort_by row_key p (flat_map (λ e. e.1) b.copies),
    count-sort_by row_key p b.aliases,
    count-flat_map p (λ (e : ℤ × List RowRef). e.1) b.copies,
  )

  result_weight :
      (ordered : List CoverageSource) (g : Progress)
      → count p (copy_rows (finish ordered g))
          + count p (alias_rows (finish ordered g))
          + count p (unknown_rows (finish ordered g))
          + count p (excluded_rows (finish ordered g))
        ≡ progress_weight g
  unfolding finish
  result_weight ordered g = omega (
    arith,
    finished_weight ordered g.unknown_rows g.groups,
    count-map p (λ (u : UnknownContent). u.row) (finish ordered g).unknown_content,
    count-map p (λ (e : Exclusion). e.row) (finish ordered g).exclusions,
    count-sort_by (λ (u : UnknownContent). row_key u.row) (λ u. p u.row) g.unknown_content,
    count-sort_by (λ (e : Exclusion). row_key e.row) (λ e. p e.row) g.exclusions,
  )

-- Every input row appears in the result of a successful grouping exactly once, as a group's copy,
-- as a group's alias, as unknown content or as an exclusion: whatever rows `p` selects, the result
-- lists as many of them in these four places together as the sources hold.
pub group_partition :
    (sources : List CoverageSource) (c : Coverage) (p : RowRef → Bool)
    → group sources ≡ ok c
    → count p (copy_rows c)
        + count p (alias_rows c)
        + count p (unknown_rows c)
        + count p (excluded_rows c)
      ≡ count p (input_rows sources)
unfolding group
group_partition sources c p e =
    let ordered = in_id_order sources in
    let (_, _, e') = >>=-eq-ok (check_distinct ordered) _ e in
    let (g, scanned, done) = >>=-eq-ok (scan_sources ordered no_progress) _ e' in
    subst
      (λ r.
        count p (copy_rows r)
          + count p (alias_rows r)
          + count p (unknown_rows r)
          + count p (excluded_rows r)
        ≡ count p (input_rows sources))
      (ok-injective done)
      (omega (
        arith,
        result_weight p ordered g,
        progress_weight-scan_sources p ordered no_progress scanned,
        sum_by-sort_by (λ (s : CoverageSource). s.source_id) (source_weight p) sources,
        count-flat_map p (λ (s : CoverageSource). map (row_ref s.source_id) s.rows) sources,
      ))
