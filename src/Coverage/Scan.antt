-- ===== src/Coverage/Scan.antt =====
-- src/core/coverage.rs, the loop of `group` over one source: the checks, the latest row of each
-- path, the rows, and the hard links after them.
use backupsage.Base.{
  ℕ, Bool, true, false, Option, none, some, not, ◌&&◌, if◌then◌else◌, List, [], ◌∷◌, ◌++◌, any,
  is_some, Result, ok, err, ◌>>=◌, ◌>>◌, bail_if,
}
use backupsage.Base.Int.{ℤ}
use backupsage.Base.Order.{eqb, lessb, int_ord, nat_ord, list_ord}
use backupsage.Base.SortedMap.{SortedMap, lookup, upsert}
use backupsage.Store.Flags
use backupsage.Legacy.{name_uncertain}
use backupsage.Coverage.Types.{
  Bytes, SourceEvidence, unavailable, no_content_hashes, EntryKind, file, hardlink, symlink,
  CoverageRow, CoverageSource, RowRef, UnknownContent, Exclusion, shadowed, symlink_entry,
  unmatched_hardlink, CoverageError, unavailable_but_carries_rows, no_hashes_but_row_carries_one,
  repeated_file_id, missing_map_key,
}
use backupsage.Coverage.Rows.{untrusted_hash, trusted_size, UnknownRows, add, unknown_reason}

-- A group while it is built.
pub record Building : Type 0 where
  pub copies : SortedMap ℤ (List RowRef)
  pub aliases : List RowRef
  pub sizes : SortedMap ℕ (Unit {0})

abbrev pub Groups : Type 0
Groups = SortedMap Bytes Building

abbrev pub empty_building : Building
empty_building = record { copies = []; aliases = []; sizes = [] }

abbrev pub or_default {ℓ} : {A : Type ℓ} → A → Option A → A
or_default d none = d
or_default d (some a) = a

abbrev pub row_ref : ℤ → CoverageRow → RowRef
row_ref id row = record { source_id = id; path_raw = row.path_raw; file_id = row.file_id }

-- The consistency of a source's evidence with its rows.
abbrev pub carries_rows : List CoverageRow → Bool
carries_rows [] = false
carries_rows (_ ∷ _) = true

unfoldable pub check_evidence :
    SourceEvidence → ℤ → List CoverageRow → Result CoverageError (Unit {0})
check_evidence unavailable id rows = bail_if (carries_rows rows) (unavailable_but_carries_rows id)
check_evidence no_content_hashes id rows =
    bail_if (any (λ r. is_some r.content_hash) rows) (no_hashes_but_row_carries_one id)
check_evidence _ id rows = ok tt

-- `or_insert(id)`, then the greater of the two.
abbrev pub max_id : ℤ → Option ℤ → ℤ
max_id id none = id
max_id id (some old) = if lessb old id then id else old

abbrev pub note_latest : CoverageRow → SortedMap Bytes ℤ → SortedMap Bytes ℤ
note_latest row latest =
    if name_uncertain row.flags then latest else upsert row.path_raw (max_id row.file_id) latest

-- The loop over `file_ids` and `latest`.
unfoldable pub latest_from :
    ℤ
    → SortedMap ℤ (Unit {0})
    → SortedMap Bytes ℤ
    → List CoverageRow
    → Result CoverageError (SortedMap Bytes ℤ)
latest_from id seen latest [] = ok latest
latest_from id seen latest (row ∷ rows) =
    let rest = latest_from id (upsert row.file_id (λ _. tt) seen) (note_latest row latest) rows in
    if is_some (lookup row.file_id seen) then err (repeated_file_id id row.file_id) else rest

-- What the loop over the rows of one source changes.
pub record Scan : Type 0 where
  pub groups : Groups
  pub unknown : UnknownRows
  pub unknown_content : List UnknownContent
  pub exclusions : List Exclusion
  pub hardlinks : List CoverageRow

-- `latest[row.path_raw] != row.file_id`, for a row with a certain name.
unfoldable pub is_shadowed : SortedMap Bytes ℤ → CoverageRow → Result CoverageError Bool
is_shadowed latest row =
    if name_uncertain row.flags then ok false else elim (lookup row.path_raw latest) [
      | none ↦ err missing_map_key
      | some winner ↦ ok (not (eqb winner row.file_id))
    ]

unfoldable pub add_copy : ℤ → CoverageRow → Option Building → Building
add_copy id row old =
    let b = or_default empty_building old in
    record b {
      copies = upsert id (λ rows. or_default [] rows ++ row_ref id row ∷ []) b.copies;
      sizes = elim (trusted_size row) [ none ↦ b.sizes | some n ↦ upsert n (λ _. tt) b.sizes ];
    }

abbrev pub exclude_shadowed : RowRef → Scan → Scan
exclude_shadowed r s = record s {
  exclusions = s.exclusions ++ record { row = r; reason = shadowed } ∷ [];
}

-- Whether a file row with a stored hash is a copy.
abbrev pub is_trusted : CoverageRow → Bool
is_trusted row = not (Flags.has row.flags untrusted_hash) && not (name_uncertain row.flags)

unfoldable pub add_unknown : ℤ → CoverageRow → Scan → Scan
add_unknown id row s = record s {
  unknown = add s.unknown (trusted_size row);
  unknown_content =
      s.unknown_content
      ++ record { row = row_ref id row; size = row.size; reason = unknown_reason row } ∷ [];
}

-- The `match` on the entry kind and the hash of a row that is not shadowed.
unfoldable pub place : EntryKind → Option Bytes → ℤ → CoverageRow → Scan → Scan
place symlink _ id row s = record s {
  exclusions = s.exclusions ++ record { row = row_ref id row; reason = symlink_entry } ∷ [];
}
place hardlink _ id row s = record s { hardlinks = s.hardlinks ++ row ∷ [] }
place file (some hash) id row s =
    if is_trusted row
    then record s { groups = upsert hash (add_copy id row) s.groups }
    else add_unknown id row s
place file none id row s = add_unknown id row s

unfoldable pub scan_row : ℤ → SortedMap Bytes ℤ → CoverageRow → Scan → Result CoverageError Scan
scan_row id latest row s = do
  hidden ← is_shadowed latest row
  ok (
      if hidden
      then exclude_shadowed (row_ref id row) s
      else place row.entry row.content_hash id row s)

unfoldable pub scan_rows :
    ℤ → SortedMap Bytes ℤ → List CoverageRow → Scan → Result CoverageError Scan
scan_rows id latest [] s = ok s
scan_rows id latest (row ∷ rows) s = scan_row id latest row s >>= scan_rows id latest rows

-- A hard link is an alias of a copy in its own source.
abbrev pub holds_copy : ℤ → Option Building → Bool
holds_copy id none = false
holds_copy id (some b) = is_some (lookup id b.copies)

abbrev pub add_alias : RowRef → Option Building → Building
add_alias r old =
    let b = or_default empty_building old in record b { aliases = b.aliases ++ r ∷ [] }

abbrev pub unmatched : RowRef → Groups × List Exclusion → Groups × List Exclusion
unmatched r (groups, exclusions) =
    (groups, exclusions ++ record { row = r; reason = unmatched_hardlink } ∷ [])

unfoldable pub link_hash :
    Option Bytes → ℤ → RowRef → Groups × List Exclusion → Groups × List Exclusion
link_hash none id r s = unmatched r s
link_hash (some hash) id r s =
    if holds_copy id (lookup hash s.0) then (upsert hash (add_alias r) s.0, s.1) else unmatched r s

abbrev pub link_row : ℤ → CoverageRow → Groups × List Exclusion → Groups × List Exclusion
link_row id row s = link_hash row.content_hash id (row_ref id row) s

unfoldable pub link_rows : ℤ → List CoverageRow → Groups × List Exclusion → Groups × List Exclusion
link_rows id [] s = s
link_rows id (row ∷ rows) s = link_rows id rows (link_row id row s)

-- What the loop over the sources changes.
pub record Progress : Type 0 where
  pub groups : Groups
  pub unknown_rows : List UnknownRows
  pub unknown_content : List UnknownContent
  pub exclusions : List Exclusion

abbrev pub no_unknown_rows : UnknownRows
no_unknown_rows = record { untrusted = 0; by_size = []; trusted = 0 }

abbrev pub start_scan : Progress → Scan
start_scan p = record {
  groups = p.groups;
  unknown = no_unknown_rows;
  unknown_content = p.unknown_content;
  exclusions = p.exclusions;
  hardlinks = [];
}

abbrev pub close_scan : ℤ → List UnknownRows → Scan → Progress
close_scan id before s =
    let linked = link_rows id s.hardlinks (s.groups, s.exclusions) in
    record {
      groups = linked.0;
      unknown_rows = before ++ s.unknown ∷ [];
      unknown_content = s.unknown_content;
      exclusions = linked.1;
    }

unfoldable pub scan_source : CoverageSource → Progress → Result CoverageError Progress
scan_source source p = do
  check_evidence source.evidence source.source_id source.rows
  latest ← latest_from source.source_id [] [] source.rows
  s ← scan_rows source.source_id latest source.rows (start_scan p)
  ok (close_scan source.source_id p.unknown_rows s)

unfoldable pub scan_sources : List CoverageSource → Progress → Result CoverageError Progress
scan_sources [] p = ok p
scan_sources (source ∷ sources) p = scan_source source p >>= scan_sources sources
