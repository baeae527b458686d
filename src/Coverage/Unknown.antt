-- ===== src/Coverage/Unknown.antt =====
-- The unknown rows that a source's scan counts, by the sizes that they could have.
use backupsage.Base.{
  ℕ, ◌+◌, ◌≡◌, Bool, not, ◌&&◌, Option, none, some, List, [], ◌∷◌, is_some, count, arith,
  if◌then◌else◌, Bool-cases, inl, inr,
}
use backupsage.Base.Int.{ℤ}
use backupsage.Base.Order.{nat_ord}
use backupsage.Base.SortedMap.{lookup-upsert}
use backupsage.Coverage.Types.{Bytes, CoverageRow, EntryKind, file, hardlink, symlink}
use backupsage.Coverage.Rows.{trusted_size, UnknownRows, add, could_match, or_zero}
use backupsage.Coverage.Scan.{Scan, is_trusted, place, add_unknown}
use backupsage.Coverage.Latest.{is_effective}
use backupsage.Coverage.Described.{is_file, size_fits, could_hold, step, scan_all}

could_match-add :
    (u : UnknownRows) (size known : Option ℕ)
    → could_match (add u known) size ≡ could_match u size + (if size_fits size known then 1 else 0)
unfolding could_match add nat_ord
could_match-add u none none = omega arith
could_match-add u none (some m) = omega arith
could_match-add u (some n) none = omega arith
could_match-add u (some n) (some m) =
    ground (arith, lookup-upsert m n (λ old. or_zero old + 1) u.by_size)

module _ (id : ℤ) (size : Option ℕ) where
  abbrev matching : Scan → ℕ
  matching s = could_match s.unknown size

  abbrev placed_unknown : EntryKind → Option Bytes → CoverageRow → Bool
  placed_unknown entry h row =
      is_file entry && (not (is_some h && is_trusted row) && size_fits size (trusted_size row))

  matching-place :
      (entry : EntryKind) (h : Option Bytes) (row : CoverageRow) (s : Scan)
      → matching (place entry h id row s)
        ≡ matching s + (if placed_unknown entry h row then 1 else 0)
  unfolding place add_unknown
  matching-place symlink h row s = omega arith
  matching-place hardlink h row s = omega arith
  matching-place file none row s = could_match-add s.unknown size (trusted_size row)
  matching-place file (some h) row s = elim (Bool-cases (is_trusted row)) [
    | inl e ↦ rw e (omega arith)
    | inr e ↦ rw e (could_match-add s.unknown size (trusted_size row))
  ]

  matching-step :
      (all_rows : List CoverageRow) (row : CoverageRow) (s : Scan)
      → matching (step all_rows id row s)
        ≡ matching s + (if could_hold all_rows size row then 1 else 0)
  matching-step all_rows row s = elim (Bool-cases (is_effective all_rows row)) [
    | inl e ↦ rw e (matching-place row.entry row.content_hash row s)
    | inr e ↦ rw e (omega arith)
  ]

  pub matching-scan_all :
      (all_rows rows : List CoverageRow) (s : Scan)
      → matching (scan_all all_rows id rows s) ≡ matching s + count (could_hold all_rows size) rows
  unfolding scan_all
  matching-scan_all all_rows [] s = omega arith
  matching-scan_all all_rows (row ∷ rows) s = omega (
    arith,
    matching-step all_rows row s,
    matching-scan_all all_rows rows (step all_rows id row s),
  )
