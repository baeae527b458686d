-- ===== src/Coverage/Described.antt =====
-- What the loops over a source's rows collect, described row by row without the maps.
use backupsage.Base.{
  ℕ, ◌≡◌, refl, Bool, true, false, not, ◌&&◌, Option, none, some, List, [], ◌∷◌, All, is_some,
  count, filter, map, ok, if◌then◌else◌, ◌==◌, length,
}
use backupsage.Base.Int.{ℤ}
use backupsage.Base.Order.{eqb, int_ord, nat_ord, list_ord}
use backupsage.Base.SortedMap.{SortedMap}
use backupsage.Coverage.Types.{
  Bytes, CoverageRow, CoverageSource, EntryKind, file, RowRef, SourceEvidence, Presence, present,
  unknown, source_unreachable,
}
use backupsage.Coverage.Rows.{trusted_size}
use backupsage.Coverage.Scan.{
  Scan, is_shadowed, is_trusted, row_ref, exclude_shadowed, place, scan_row, scan_rows,
}
use backupsage.Coverage.Grouping.{presence_without_copy, is_unreachable}
use backupsage.Coverage.Latest.{is_effective}

abbrev pub is_file : EntryKind → Bool
is_file file = true
is_file _ = false

abbrev pub has_hash : Bytes → Option Bytes → Bool
has_hash hash none = false
has_hash hash (some h) = eqb hash h

-- The row, among the rows of its source, is a copy of the content with this hash.
abbrev pub is_copy : List CoverageRow → Bytes → CoverageRow → Bool
is_copy rows hash row =
    is_effective rows row
    && (is_file row.entry && (has_hash hash row.content_hash && is_trusted row))

abbrev pub size_fits : Option ℕ → Option ℕ → Bool
size_fits none known = true
size_fits (some n) none = true
size_fits (some n) (some m) = n == m

-- The row, among the rows of its source, is a file of unknown content that could have this size.
abbrev pub could_hold : List CoverageRow → Option ℕ → CoverageRow → Bool
could_hold rows size row =
    is_effective rows row
    && (is_file row.entry
        && (not (is_some row.content_hash && is_trusted row) && size_fits size (trusted_size row)))

-- The rows of the source that are copies of the content, in the source's order.
abbrev pub copy_list : CoverageSource → Bytes → List RowRef
copy_list s hash = map (row_ref s.source_id) (filter (is_copy s.rows hash) s.rows)

abbrev pub described_by_copies : List RowRef → SourceEvidence → ℕ → Presence
described_by_copies [] evidence n = presence_without_copy evidence n
described_by_copies (c ∷ cs) evidence n = present (length (c ∷ cs))

-- Where the content with this hash and size stands in a source.
abbrev pub described_presence : CoverageSource → Bytes → Option ℕ → Presence
described_presence s hash size =
    if is_unreachable s.evidence
    then unknown source_unreachable
    else described_by_copies (copy_list s hash) s.evidence (count (could_hold s.rows size) s.rows)

-- The loops of `scan_source`, where every key is found.
module _ (all_rows : List CoverageRow) (id : ℤ) where
  abbrev pub step : CoverageRow → Scan → Scan
  step row s =
      if not (is_effective all_rows row)
      then exclude_shadowed (row_ref id row) s
      else place row.entry row.content_hash id row s

  unfoldable pub scan_all : List CoverageRow → Scan → Scan
  scan_all [] s = s
  scan_all (row ∷ rows) s = scan_all rows (step row s)

  pub scan_rows-eq-ok :
      (latest : SortedMap Bytes ℤ) (rows : List CoverageRow) (s : Scan)
      → All (λ row. is_shadowed latest row ≡ ok (not (is_effective all_rows row))) rows
      → scan_rows id latest rows s ≡ ok (scan_all rows s)
  unfolding scan_rows scan_row scan_all
  scan_rows-eq-ok latest [] s h = refl
  scan_rows-eq-ok latest (row ∷ rows) s h =
      rw (h.0, scan_rows, scan_row) (scan_rows-eq-ok latest rows (step row s) h.1)
