-- ===== src/Coverage/Partition/Rows.antt =====
-- How many of the rows collected so far satisfy a predicate, and how each step changes that.
use backupsage.Base.{
  ℕ, ◌+◌, ◌≡◌, Bool, true, false, Option, none, some, List, [], ◌∷◌, ◌++◌, count, ok, >>=-eq-ok,
  arith, count-append, if◌then◌else◌, Bool-cases, inl, inr, ok-injective, subst,
}
use backupsage.Base.Int.{ℤ}
use backupsage.Base.SortedMap.{SortedMap, lookup, upsert, weigh, weigh_option, weigh-upsert}
use backupsage.Base.Order.{int_ord, nat_ord, list_ord}
use backupsage.Coverage.Types.{
  Bytes, CoverageRow, RowRef, EntryKind, file, hardlink, symlink, UnknownContent, Exclusion,
}
use backupsage.Coverage.Scan.{
  Building, Groups, or_default, Scan, row_ref, add_copy, add_alias, add_unknown, place, is_trusted,
  is_shadowed, scan_row, scan_rows, link_hash, link_rows, holds_copy, exclude_shadowed,
}

-- How many rows of a building satisfy `p`.
module _ (p : RowRef → Bool) where
  abbrev pub weight : Building → ℕ
  weight b = weigh (count p) b.copies + count p b.aliases

  abbrev pub unknown_weight : List UnknownContent → ℕ
  unknown_weight us = count (λ u. p u.row) us

  abbrev pub excluded_weight : List Exclusion → ℕ
  excluded_weight es = count (λ e. p e.row) es

  abbrev pub one : RowRef → ℕ
  one r = if p r then 1 else 0

  weight-add_copy :
      (id : ℤ) (row : CoverageRow) (old : Option Building)
      → weight (add_copy id row old) ≡ weigh_option weight old + one (row_ref id row)
  unfolding add_copy upsert
  weight-add_copy id row none =
      omega
        (arith, weigh-upsert (count p) id (λ rows. or_default [] rows ++ row_ref id row ∷ []) [])
  weight-add_copy id row (some b) = omega (
    arith,
    weigh-upsert (count p) id (λ rows. or_default [] rows ++ row_ref id row ∷ []) b.copies,
    pushed (lookup id b.copies),
  )
    where
      pushed :
          (old : Option (List RowRef))
          → count p (or_default [] old ++ row_ref id row ∷ [])
            ≡ weigh_option (count p) old + one (row_ref id row)
      pushed none = omega arith
      pushed (some rows) = omega (arith, count-append p rows (row_ref id row ∷ []))

  weight-add_alias :
      (r : RowRef) (old : Option Building)
      → weight (add_alias r old) ≡ weigh_option weight old + one r
  weight-add_alias r none = omega arith
  weight-add_alias r (some b) = omega (arith, count-append p b.aliases (r ∷ []))

  abbrev pub groups_weight : Groups → ℕ
  groups_weight groups = weigh weight groups

  groups_weight-add_copy :
      (hash : Bytes) (id : ℤ) (row : CoverageRow) (groups : Groups)
      → groups_weight (upsert hash (add_copy id row) groups)
        ≡ groups_weight groups + one (row_ref id row)
  groups_weight-add_copy hash id row groups = omega (
    arith,
    weigh-upsert weight hash (add_copy id row) groups,
    weight-add_copy id row (lookup hash groups),
  )

  groups_weight-add_alias :
      (hash : Bytes) (r : RowRef) (groups : Groups)
      → groups_weight (upsert hash (add_alias r) groups) ≡ groups_weight groups + one r
  groups_weight-add_alias hash r groups = omega (
    arith,
    weigh-upsert weight hash (add_alias r) groups,
    weight-add_alias r (lookup hash groups),
  )

  module _ (id : ℤ) where
    abbrev pub scan_weight : Scan → ℕ
    scan_weight s =
        groups_weight s.groups
        + unknown_weight s.unknown_content
        + excluded_weight s.exclusions
        + count (λ row. p (row_ref id row)) s.hardlinks

    scan_weight-add_unknown :
        (row : CoverageRow) (s : Scan)
        → scan_weight (add_unknown id row s) ≡ scan_weight s + one (row_ref id row)
    unfolding add_unknown
    scan_weight-add_unknown row s =
        omega (arith, count-append (λ u. p u.row) s.unknown_content (_ ∷ []))

    scan_weight-place :
        (entry : EntryKind) (hash : Option Bytes) (row : CoverageRow) (s : Scan)
        → scan_weight (place entry hash id row s) ≡ scan_weight s + one (row_ref id row)
    unfolding place
    scan_weight-place symlink hash row s =
        omega (arith, count-append (λ e. p e.row) s.exclusions (_ ∷ []))
    scan_weight-place hardlink hash row s =
        omega (arith, count-append (λ r. p (row_ref id r)) s.hardlinks (row ∷ []))
    scan_weight-place file none row s = scan_weight-add_unknown row s
    scan_weight-place file (some hash) row s = elim (Bool-cases (is_trusted row)) [
      | inl trusted ↦ rw trusted (omega (arith, groups_weight-add_copy hash id row s.groups))
      | inr other ↦ rw other (scan_weight-add_unknown row s)
    ]

    scan_weight-step :
        (hidden : Bool) (row : CoverageRow) (s : Scan)
        → scan_weight (
            if hidden
            then exclude_shadowed (row_ref id row) s
            else place row.entry row.content_hash id row s)
          ≡ scan_weight s + one (row_ref id row)
    scan_weight-step true row s = omega (arith, count-append (λ e. p e.row) s.exclusions (_ ∷ []))
    scan_weight-step false row s = scan_weight-place row.entry row.content_hash row s

    scan_weight-scan_row :
        (latest : SortedMap Bytes ℤ) (row : CoverageRow) (s : Scan) {t : Scan}
        → scan_row id latest row s ≡ ok t
        → scan_weight t ≡ scan_weight s + one (row_ref id row)
    unfolding scan_row
    scan_weight-scan_row latest row s {t} e =
        let (hidden, _, placed) = >>=-eq-ok (is_shadowed latest row) _ e in
        subst (λ u. scan_weight u ≡ scan_weight s + one (row_ref id row)) (ok-injective placed)
          (scan_weight-step hidden row s)

    -- Each row of a source adds itself once to what was collected.
    pub scan_weight-scan_rows :
        (latest : SortedMap Bytes ℤ) (rows : List CoverageRow) (s : Scan) {t : Scan}
        → scan_rows id latest rows s ≡ ok t
        → scan_weight t ≡ scan_weight s + count (λ row. p (row_ref id row)) rows
    unfolding scan_rows
    scan_weight-scan_rows latest [] s e = ground arith
    scan_weight-scan_rows latest (row ∷ rows) s e =
        let (s', first, rest) = >>=-eq-ok (scan_row id latest row s) (scan_rows id latest rows) e in
        omega (
          arith,
          scan_weight-scan_row latest row s first,
          scan_weight-scan_rows latest rows s' rest,
        )

    abbrev pub linked_weight : Groups × List Exclusion → ℕ
    linked_weight s = groups_weight s.0 + excluded_weight s.1

    linked_weight-link_hash :
        (hash : Option Bytes) (r : RowRef) (s : Groups × List Exclusion)
        → linked_weight (link_hash hash id r s) ≡ linked_weight s + one r
    unfolding link_hash
    linked_weight-link_hash none r (groups, excluded) =
        omega (arith, count-append (λ e. p e.row) excluded (_ ∷ []))
    linked_weight-link_hash (some hash) r (groups, excluded) =
        elim (Bool-cases (holds_copy id (lookup hash groups))) [
          | inl found ↦ rw found (omega (arith, groups_weight-add_alias hash r groups))
          | inr missing ↦ rw missing (omega (arith, count-append (λ e. p e.row) excluded (_ ∷ [])))
        ]

    -- Each hard link ends as an alias or as an exclusion.
    pub linked_weight-link_rows :
        (rows : List CoverageRow) (s : Groups × List Exclusion)
        → linked_weight (link_rows id rows s)
          ≡ linked_weight s + count (λ row. p (row_ref id row)) rows
    unfolding link_rows
    linked_weight-link_rows [] s = omega arith
    linked_weight-link_rows (row ∷ rows) s = omega (
      arith,
      linked_weight-link_hash row.content_hash (row_ref id row) s,
      linked_weight-link_rows rows (link_hash row.content_hash id (row_ref id row) s),
    )
