-- ===== src/Coverage/Latest.antt =====
-- The effective namespace of one source: the latest row of a path, found by the loop over the rows
-- and described without it.
use backupsage.Base.{
  ◌≡◌, refl, ap, ◌∙◌, Bool, true, false, not, ◌&&◌, ◌||◌, Option, none, some, List, [], ◌∷◌, all,
  All, All-imp, ok, arith, if◌then◌else◌, Bool-cases, inl, inr,
}
use backupsage.Base.Int.{ℤ}
use backupsage.Base.Order.{eqb, eqb_refl, eqb_iff, lessb, int_ord, nat_ord, list_ord}
use backupsage.Base.SortedMap.{SortedMap, lookup, upsert, lookup-upsert}
use backupsage.Legacy.{name_uncertain}
use backupsage.Coverage.Types.{Bytes, CoverageRow}
use backupsage.Coverage.Scan.{max_id, note_latest, latest_from, is_shadowed}

-- A row that is keyed at this path.
abbrev pub keyed_at : Bytes → CoverageRow → Bool
keyed_at path row = not (name_uncertain row.flags) && eqb path row.path_raw

-- No row that is keyed at the row's path has a greater file id.
abbrev pub is_latest : List CoverageRow → CoverageRow → Bool
is_latest rows row =
    all (λ r. not (keyed_at row.path_raw r) || not (lessb row.file_id r.file_id)) rows

-- A row counts unless a later one at its path shadows it. A row with an uncertain name is never
-- shadowed.
abbrev pub is_effective : List CoverageRow → CoverageRow → Bool
is_effective rows row = name_uncertain row.flags || is_latest rows row

-- The loop's map, as a function of the path.
latest_id : Bytes → List CoverageRow → Option ℤ → Option ℤ
latest_id path [] old = old
latest_id path (row ∷ rows) old =
    latest_id path rows (if keyed_at path row then some (max_id row.file_id old) else old)

lookup-note_latest :
    (path : Bytes) (row : CoverageRow) (m : SortedMap Bytes ℤ)
    → lookup path (note_latest row m)
      ≡ (if keyed_at path row then some (max_id row.file_id (lookup path m)) else lookup path m)
lookup-note_latest path row m =
    ground
      (arith, lookup-upsert row.path_raw path (max_id row.file_id) m, (eqb_iff path row.path_raw).0)

latest_from-cons :
    (id : ℤ) (seen : SortedMap ℤ (Unit {0})) (m : SortedMap Bytes ℤ) (row : CoverageRow)
    (rows : List CoverageRow) {latest : SortedMap Bytes ℤ}
    → latest_from id seen m (row ∷ rows) ≡ ok latest
    → latest_from id (upsert row.file_id (λ _. tt) seen) (note_latest row m) rows ≡ ok latest
unfolding latest_from
latest_from-cons id seen m row rows e = ground arith

lookup-latest_from :
    (id : ℤ) (seen : SortedMap ℤ (Unit {0})) (m : SortedMap Bytes ℤ) (rows : List CoverageRow)
    {latest : SortedMap Bytes ℤ} (path : Bytes)
    → latest_from id seen m rows ≡ ok latest
    → lookup path latest ≡ latest_id path rows (lookup path m)
unfolding latest_from latest_id
lookup-latest_from id seen m [] path e = ground arith
lookup-latest_from id seen m (row ∷ rows) path e =
    let next = note_latest row m in
    lookup-latest_from id (upsert row.file_id (λ _. tt) seen) next rows path
      (latest_from-cons id seen m row rows e)
    ∙ ap (latest_id path rows) (lookup-note_latest path row m)

abbrev at_most : Option ℤ → ℤ → Bool
at_most none b = true
at_most (some w) b = not (lessb b w)

at_most-max_id :
    (id b : ℤ) (old : Option ℤ)
    → at_most (some (max_id id old)) b ≡ (not (lessb b id) && at_most old b)
at_most-max_id id b none = ground arith
at_most-max_id id b (some w) = ground (
  arith,
  int_ord.flipped b id,
  int_ord.flipped b w,
  int_ord.flipped w id,
  int_ord.eq_of b id,
  int_ord.eq_of b w,
  int_ord.eq_of w id,
  int_ord.lt_trans b w id,
  int_ord.lt_trans b id w,
  int_ord.lt_trans w id b,
  int_ord.lt_trans w b id,
)

-- The latest id is the least upper bound of the ids that are keyed at the path.
at_most-latest_id :
    (path : Bytes) (rows : List CoverageRow) (old : Option ℤ) (b : ℤ)
    → at_most (latest_id path rows old) b
      ≡ (at_most old b && all (λ r. not (keyed_at path r) || not (lessb b r.file_id)) rows)
unfolding latest_id
at_most-latest_id path [] old b = ground arith
at_most-latest_id path (row ∷ rows) old b = ground (
  arith,
  at_most-latest_id path rows (if keyed_at path row then some (max_id row.file_id old) else old) b,
  at_most-max_id row.file_id b old,
)

latest_id-some :
    (path : Bytes) (rows : List CoverageRow) (w : ℤ)
    → (v : ℤ) × (latest_id path rows (some w) ≡ some v)
unfolding latest_id
latest_id-some path [] w = (w, refl)
latest_id-some path (row ∷ rows) w = elim (Bool-cases (keyed_at path row)) [
  | inl k ↦ rw (k, latest_id) (latest_id-some path rows (max_id row.file_id (some w)))
  | inr k ↦ rw (k, latest_id) (latest_id-some path rows w)
]

latest_id-ge :
    (path : Bytes) (rows : List CoverageRow) (id : ℤ) (old : Option ℤ) (v : ℤ)
    → latest_id path rows (some (max_id id old)) ≡ some v
    → lessb v id ≡ false
latest_id-ge path rows id old v e =
    let bound = at_most-latest_id path rows (some (max_id id old)) v in
    ground (arith, rw e at bound, at_most-max_id id v old, int_ord.same v)

-- Each row with a certain name finds a latest id at its path, at least its own.
abbrev Finds : List CoverageRow → (Bytes → Option ℤ) → CoverageRow → Type 0
Finds rows old r =
    name_uncertain r.flags ≡ false
    → (v : ℤ) × (latest_id r.path_raw rows (old r.path_raw) ≡ some v) × (lessb v r.file_id ≡ false)

latest_id-All : (rows : List CoverageRow) (old : Bytes → Option ℤ) → All (Finds rows old) rows
unfolding latest_id
latest_id-All [] old = tt
latest_id-All (row ∷ rows) old = (
  λ certain.
      rw (certain, eqb_refl row.path_raw)
        (let (v, e) = latest_id-some row.path_raw rows (max_id row.file_id (old row.path_raw)) in
          (v, e, latest_id-ge row.path_raw rows row.file_id (old row.path_raw) v e)),
  latest_id-All rows
      (λ path. if keyed_at path row then some (max_id row.file_id (old path)) else old path),
)

-- The loop's test, for a row whose latest id was found, is the description.
is_shadowed-Finds :
    (rows : List CoverageRow) (latest : SortedMap Bytes ℤ) (row : CoverageRow)
    → ((path : Bytes) → lookup path latest ≡ latest_id path rows none)
    → Finds rows (λ _. none) row
    → is_shadowed latest row ≡ ok (not (is_effective rows row))
unfolding is_shadowed
is_shadowed-Finds rows latest row described finds = elim (Bool-cases (name_uncertain row.flags)) [
  | inl uncertain ↦ rw (uncertain, is_shadowed)
  | inr certain ↦
      let (v, e, above) = finds certain in
      let bound = at_most-latest_id row.path_raw rows none row.file_id in
      ground (
        arith,
        described row.path_raw,
        rw e at bound,
        int_ord.eq_of v row.file_id,
        int_ord.same v,
        int_ord.flipped v row.file_id,
      )
]

-- After the first loop over a source's rows, the second one finds the key of each of them, and
-- shadows exactly those that are not effective.
pub is_shadowed-latest_from :
    (id : ℤ) (rows : List CoverageRow) {latest : SortedMap Bytes ℤ}
    → latest_from id [] [] rows ≡ ok latest
    → All (λ row. is_shadowed latest row ≡ ok (not (is_effective rows row))) rows
unfolding lookup
is_shadowed-latest_from id rows {latest} e =
    All-imp
      (λ row. is_shadowed-Finds rows latest row (λ path. lookup-latest_from id [] [] rows path e))
      rows (latest_id-All rows (λ _. none))
