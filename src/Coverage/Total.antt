-- ===== src/Coverage/Total.antt =====
-- When the grouping succeeds: never a panic, and an error exactly for inconsistent input.
use Prim.Native.Nat.Ordering.{lt}
use backupsage.Base.{
  ℕ, ◌+◌, ◌≤◌, ◌≡◌, refl, ◌↔◌, false, none, is_some, List, [], ◌∷◌, All, All-of_map, count, any,
  if◌then◌else◌, arith, ok, >>=-eq-ok,
}
use backupsage.Base.Int.{ℤ}
use backupsage.Base.Order.{eqb, eqb_iff, IsSorted, int_ord, list_ord, nat_ord}
use backupsage.Base.SortedMap.{SortedMap, lookup, upsert, lookup-upsert}
use backupsage.Base.Sort.{count-sort_by, All-sort_by, All-of_sort_by}
use backupsage.Coverage.Types.{
  Bytes, CoverageRow, CoverageSource, Coverage, SourceEvidence, complete, incomplete, unavailable,
  no_content_hashes, unreachable,
}
use backupsage.Coverage.Scan.{
  Progress, note_latest, latest_from, check_evidence, scan_source, scan_sources,
}
use backupsage.Coverage.Grouping.{check_distinct, finish, in_id_order, no_progress, group}
use backupsage.Coverage.Distinct.{source_ids, in_id_order-IsSorted}
use backupsage.Coverage.Scanned.{scanned, scan_source-eq-scanned}

-- No two sources, or rows of a source, share an id.
abbrev pub HasDistinctIds : List CoverageSource → Type 0
HasDistinctIds sources = (i : ℤ) → count (λ s. eqb i s.source_id) sources ≤ 1

abbrev pub HasDistinctFileIds : List CoverageRow → Type 0
HasDistinctFileIds rows = (i : ℤ) → count (λ r. eqb i r.file_id) rows ≤ 1

-- An unavailable source has no rows, and a source without content hashes no hashes.
abbrev pub EvidenceFits : SourceEvidence → List CoverageRow → Type 0
EvidenceFits unavailable rows = rows ≡ []
EvidenceFits no_content_hashes rows = All (λ r. r.content_hash ≡ none) rows
EvidenceFits _ rows = Unit

abbrev pub IsConsistent : CoverageSource → Type 0
IsConsistent s = EvidenceFits s.evidence s.rows × HasDistinctFileIds s.rows

pub no_hashes_iff :
    (rows : List CoverageRow)
    → (any (λ r. is_some r.content_hash) rows ≡ false) ↔ All (λ r. r.content_hash ≡ none) rows
no_hashes_iff [] = (λ _. tt, λ _. refl)
no_hashes_iff (r ∷ rows) =
    (λ h. ground (arith, (no_hashes_iff rows).0), λ h. ground (arith, (no_hashes_iff rows).1 h.1))

check_evidence_iff :
    (e : SourceEvidence) (id : ℤ) (rows : List CoverageRow)
    → (check_evidence e id rows ≡ ok tt) ↔ EvidenceFits e rows
unfolding check_evidence
check_evidence_iff unavailable id [] = (λ _. refl, λ _. refl)
check_evidence_iff unavailable id (r ∷ rows) = (λ h. cc, λ h. cc)
check_evidence_iff no_content_hashes id rows =
    (λ h. (no_hashes_iff rows).0 (ground arith), λ h. rw ((no_hashes_iff rows).1 h))
check_evidence_iff complete id rows = (λ _. tt, λ _. refl)
check_evidence_iff incomplete id rows = (λ _. tt, λ _. refl)
check_evidence_iff unreachable id rows = (λ _. tt, λ _. refl)

abbrev seen_count : ℤ → SortedMap ℤ (Unit {0}) → ℕ
seen_count i seen = if is_some (lookup i seen) then 1 else 0

abbrev Unseen : SortedMap ℤ (Unit {0}) → List CoverageRow → Type 0
Unseen seen rows = (i : ℤ) → count (λ r. eqb i r.file_id) rows + seen_count i seen ≤ 1

latest_from-total :
    (id : ℤ) (seen : SortedMap ℤ (Unit {0})) (m : SortedMap Bytes ℤ) (rows : List CoverageRow)
    → Unseen seen rows
    → (latest : SortedMap Bytes ℤ) × (latest_from id seen m rows ≡ ok latest)
unfolding latest_from
latest_from-total id seen m [] h = (m, refl)
latest_from-total id seen m (row ∷ rows) h =
    let fresh : is_some (lookup row.file_id seen) ≡ false =
      ground (arith, h row.file_id, int_ord.same row.file_id) in
    let next = upsert row.file_id (λ _. tt) seen in
    rw (fresh, latest_from)
      (latest_from-total id next (note_latest row m) rows
        (λ i. ground (arith, h i, lookup-upsert row.file_id i (λ _. tt) seen)))

latest_from-Unseen :
    (id : ℤ) (seen : SortedMap ℤ (Unit {0})) (m : SortedMap Bytes ℤ) (rows : List CoverageRow)
    {latest : SortedMap Bytes ℤ}
    → latest_from id seen m rows ≡ ok latest
    → Unseen seen rows
unfolding latest_from
latest_from-Unseen id seen m [] e i = ground arith
latest_from-Unseen id seen m (row ∷ rows) {latest} e i =
    let next = upsert row.file_id (λ _. tt) seen in
    let fresh : is_some (lookup row.file_id seen) ≡ false = ground arith in
    let rest : latest_from id next (note_latest row m) rows ≡ ok latest = ground arith in
    ground (
      arith,
      fresh,
      latest_from-Unseen id next (note_latest row m) rows rest i,
      lookup-upsert row.file_id i (λ _. tt) seen,
      (eqb_iff i row.file_id).0,
    )

Unseen-iff : (rows : List CoverageRow) → Unseen [] rows ↔ HasDistinctFileIds rows
unfolding lookup
Unseen-iff rows = (λ h i. omega (arith, h i), λ h i. omega (arith, h i))

scan_sources-total :
    (sources : List CoverageSource) (before : Progress)
    → All IsConsistent sources
    → (after : Progress) × (scan_sources sources before ≡ ok after)
unfolding scan_sources
scan_sources-total [] before h = (before, refl)
scan_sources-total (s ∷ sources) before ((fits, distinct), h) =
    let (latest, found) =
      latest_from-total s.source_id [] [] s.rows ((Unseen-iff s.rows).1 distinct) in
    let checked = (check_evidence_iff s.evidence s.source_id s.rows).1 fits in
    rw (scan_source-eq-scanned s before checked found)
      (scan_sources-total sources (scanned s before) h)

scan_sources-IsConsistent :
    (sources : List CoverageSource) (before : Progress) {after : Progress}
    → scan_sources sources before ≡ ok after
    → All IsConsistent sources
unfolding scan_sources scan_source
scan_sources-IsConsistent [] before e = tt
scan_sources-IsConsistent (s ∷ sources) before e =
    let (next, first, rest) = >>=-eq-ok (scan_source s before) (scan_sources sources) e in
    let (_, checked, e') = >>=-eq-ok (check_evidence s.evidence s.source_id s.rows) _ first in
    let (latest, found, _) = >>=-eq-ok (latest_from s.source_id [] [] s.rows) _ e' in
    (
      (
        (check_evidence_iff s.evidence s.source_id s.rows).0 checked,
        (Unseen-iff s.rows).0 (latest_from-Unseen s.source_id [] [] s.rows found),
      ),
      scan_sources-IsConsistent sources next rest,
    )

check_distinct-total :
    (sources : List CoverageSource) → HasDistinctIds sources → check_distinct sources ≡ ok tt
unfolding check_distinct
check_distinct-total [] h = refl
check_distinct-total (a ∷ []) h = refl
check_distinct-total (a ∷ b ∷ rest) h =
    let later = check_distinct-total (b ∷ rest) (λ i. ground (arith, h i)) in
    ground (arith, h a.source_id, int_ord.same a.source_id, later)

pub IsSorted-HasDistinctIds :
    (sources : List CoverageSource) → IsSorted (source_ids sources) → HasDistinctIds sources
IsSorted-HasDistinctIds [] k i = omega arith
IsSorted-HasDistinctIds (a ∷ rest) (above, k) i = ground (
  arith,
  IsSorted-HasDistinctIds rest k i,
  (eqb_iff i a.source_id).0,
  none_above a.source_id rest (
      All-of_map (λ j. int_ord.cmp a.source_id j ≡ lt) (λ (s : CoverageSource). s.source_id) rest
        above),
)
  where
    none_above :
        (j : ℤ) (sources : List CoverageSource)
        → All (λ s. int_ord.cmp j s.source_id ≡ lt) sources
        → count (λ s. eqb j s.source_id) sources ≡ 0
    none_above j [] h = refl
    none_above j (s ∷ sources) (low, h) = ground (arith, low, none_above j sources h)

-- The grouping succeeds exactly for consistent input: the source ids are distinct, an unavailable
-- source has no rows, a source without content hashes has none, and the file ids of each source are
-- distinct. So on such input it neither fails nor panics.
pub group_ok_iff :
    (sources : List CoverageSource)
    → ((c : Coverage) × (group sources ≡ ok c))
      ↔ (HasDistinctIds sources × All IsConsistent sources)
unfolding group
group_ok_iff sources =
    let ordered = in_id_order sources in
    (
      λ (c, e).
          let (_, distinct, e') = >>=-eq-ok (check_distinct ordered) _ e in
          let (g, scan, _) = >>=-eq-ok (scan_sources ordered no_progress) _ e' in
          (
            λ i. omega (
              arith,
              count-sort_by (λ (s : CoverageSource). s.source_id) (λ s. eqb i s.source_id) sources,
              IsSorted-HasDistinctIds ordered (in_id_order-IsSorted sources distinct) i,
            ),
            All-of_sort_by (λ s. s.source_id) IsConsistent sources
                (scan_sources-IsConsistent ordered no_progress scan),
          ),
      λ (distinct, consistent).
          let (g, scan) =
            scan_sources-total ordered no_progress
              (All-sort_by (λ s. s.source_id) IsConsistent sources consistent) in
          let one_each = check_distinct-total ordered (λ i. omega (
            arith,
            count-sort_by (λ (s : CoverageSource). s.source_id) (λ s. eqb i s.source_id) sources,
            distinct i,
          )) in
          (finish ordered g, rw (one_each, scan)),
    )
