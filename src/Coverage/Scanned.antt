-- ===== src/Coverage/Scanned.antt =====
-- The progress of the grouping after one source, described by the source's rows.
use backupsage.Base.{
  ℕ, ◌+◌, ◌≡◌, refl, sym, ◌∙◌, Option, none, some, List, [], ◌∷◌, ◌++◌, count, arith, if◌then◌else◌,
  Bool-cases, inl, inr, ok, >>=-eq-ok, ok-injective,
}
use backupsage.Base.Int.{ℤ}
use backupsage.Base.Order.{eqb, IsSorted, nat_ord, int_ord, list_ord}
use backupsage.Base.SortedMap.{SortedMap, lookup, keys, upsert-IsSorted}
use backupsage.Coverage.Types.{
  Bytes, CoverageRow, CoverageSource, EntryKind, file, hardlink, symlink, RowRef, Exclusion,
}
use backupsage.Coverage.Rows.{UnknownRows, could_match}
use backupsage.Coverage.Scan.{
  Scan, Groups, Progress, is_trusted, place, add_copy, add_alias, add_unknown, link_rows, link_row,
  link_hash, row_ref, holds_copy, start_scan, close_scan, check_evidence, latest_from, scan_source,
  no_unknown_rows,
}
use backupsage.Coverage.Latest.{is_effective, is_shadowed-latest_from}
use backupsage.Coverage.Described.{could_hold, copy_list, step, scan_all, scan_rows-eq-ok}
use backupsage.Coverage.Copies.{copies_at, extend, copies_at-scan_all, copies_at-link_rows}
use backupsage.Coverage.Unknown.{matching-scan_all}

-- What the source's scan contributes to the groups.
abbrev pub contributed : Bytes → ℤ → CoverageSource → List RowRef
contributed hash at s = if eqb at s.source_id then copy_list s hash else []

abbrev pub Counts : UnknownRows → CoverageSource → Type 0
Counts u s = (size : Option ℕ) → could_match u size ≡ count (could_hold s.rows size) s.rows

-- The progress after a source whose checks pass.
pub scanned : CoverageSource → Progress → Progress
scanned s before =
    close_scan s.source_id before.unknown_rows
      (scan_all s.rows s.source_id s.rows (start_scan before))

-- With the checks passed the loops over a source's rows cannot fail.
pub scan_source-eq-scanned :
    (s : CoverageSource) (before : Progress) {latest : SortedMap Bytes ℤ}
    → check_evidence s.evidence s.source_id s.rows ≡ ok tt
    → latest_from s.source_id [] [] s.rows ≡ ok latest
    → scan_source s before ≡ ok (scanned s before)
unfolding scan_source scanned
scan_source-eq-scanned s before {latest} checked found = rw (
  checked,
  found,
  scan_rows-eq-ok s.rows s.source_id latest s.rows (start_scan before)
      (is_shadowed-latest_from s.source_id s.rows found),
)

pub scan_source-ok :
    (s : CoverageSource) (before : Progress) {after : Progress}
    → scan_source s before ≡ ok after
    → after ≡ scanned s before
unfolding scan_source
scan_source-ok s before e =
    let (_, checked, e') = >>=-eq-ok (check_evidence s.evidence s.source_id s.rows) _ e in
    let (latest, found, _) = >>=-eq-ok (latest_from s.source_id [] [] s.rows) _ e' in
    ok-injective (sym e ∙ scan_source-eq-scanned s before checked found)

pub record Scanned (s : CoverageSource) (before after : Progress) : Type 0 where
  pub rows : UnknownRows
  pub counts : Counts rows s
  pub pushed : after.unknown_rows ≡ before.unknown_rows ++ rows ∷ []
  pub copies :
      (hash : Bytes) (at : ℤ)
      → copies_at hash at after.groups
        ≡ extend (copies_at hash at before.groups) (contributed hash at s)

no_rows_match : (size : Option ℕ) (n : ℕ) → could_match no_unknown_rows size + n ≡ n
unfolding could_match lookup
no_rows_match none n = omega arith
no_rows_match (some m) n = omega arith

pub scanned-Scanned : (s : CoverageSource) (before : Progress) → Scanned s before (scanned s before)
unfolding scanned
scanned-Scanned s before =
    let id = s.source_id in
    let t = scan_all s.rows id s.rows (start_scan before) in
    record {
      rows = t.unknown;
      counts = λ size.
          matching-scan_all id size s.rows s.rows (start_scan before)
          ∙ no_rows_match size (count (could_hold s.rows size) s.rows);
      pushed = refl;
      copies = λ hash at.
          copies_at-link_rows hash at id t.hardlinks (t.groups, t.exclusions)
          ∙ copies_at-scan_all id at hash s.rows s.rows (start_scan before);
    }

-- Groups stay in hash order.
place-IsSorted :
    (entry : EntryKind) (h : Option Bytes) (id : ℤ) (row : CoverageRow) (s : Scan)
    → IsSorted (keys s.groups)
    → IsSorted (keys (place entry h id row s).groups)
unfolding place add_unknown
place-IsSorted symlink h id row s k = k
place-IsSorted hardlink h id row s k = k
place-IsSorted file none id row s k = k
place-IsSorted file (some h) id row s k = elim (Bool-cases (is_trusted row)) [
  | inl e ↦ rw e (upsert-IsSorted h (add_copy id row) s.groups k)
  | inr e ↦ rw e k
]

scan_all-IsSorted :
    (all_rows : List CoverageRow) (id : ℤ) (rows : List CoverageRow) (s : Scan)
    → IsSorted (keys s.groups)
    → IsSorted (keys (scan_all all_rows id rows s).groups)
unfolding scan_all
scan_all-IsSorted all_rows id [] s k = k
scan_all-IsSorted all_rows id (row ∷ rows) s k =
    scan_all-IsSorted all_rows id rows (step all_rows id row s)
      (elim (Bool-cases (is_effective all_rows row)) [
        | inl e ↦ rw e (place-IsSorted row.entry row.content_hash id row s k)
        | inr e ↦ rw e k
      ])

link_hash-IsSorted :
    (h : Option Bytes) (id : ℤ) (r : RowRef) (s : Groups × List Exclusion)
    → IsSorted (keys s.0)
    → IsSorted (keys (link_hash h id r s).0)
unfolding link_hash
link_hash-IsSorted none id r s k = k
link_hash-IsSorted (some h) id r s k = elim (Bool-cases (holds_copy id (lookup h s.0))) [
  | inl e ↦ rw e (upsert-IsSorted h (add_alias r) s.0 k)
  | inr e ↦ rw e k
]

link_rows-IsSorted :
    (id : ℤ) (rows : List CoverageRow) (s : Groups × List Exclusion)
    → IsSorted (keys s.0)
    → IsSorted (keys (link_rows id rows s).0)
unfolding link_rows
link_rows-IsSorted id [] s k = k
link_rows-IsSorted id (row ∷ rows) s k =
    link_rows-IsSorted id rows (link_row id row s)
      (link_hash-IsSorted row.content_hash id (row_ref id row) s k)

pub scanned-IsSorted :
    (s : CoverageSource) (before : Progress)
    → IsSorted (keys before.groups)
    → IsSorted (keys (scanned s before).groups)
unfolding scanned
scanned-IsSorted s before k =
    let t = scan_all s.rows s.source_id s.rows (start_scan before) in
    link_rows-IsSorted s.source_id t.hardlinks (t.groups, t.exclusions)
      (scan_all-IsSorted s.rows s.source_id s.rows (start_scan before) k)
