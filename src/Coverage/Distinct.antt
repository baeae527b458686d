-- ===== src/Coverage/Distinct.antt =====
-- Sources in id order whose neighbours differ have rising ids, so every id is that of one source.
use Prim.Native.Nat.Ordering.{lt}
use backupsage.Base.{
  ◌≡◌, refl, List, [], ◌∷◌, All, All-and, All-imp, All-of_map, map, append-nil, flat_map,
  if◌then◌else◌, arith, ok,
}
use backupsage.Base.Int.{ℤ}
use backupsage.Base.Order.{eqb, IsSorted, int_ord}
use backupsage.Base.Sort.{NeighboursDiffer, rising, sort_by-IsSortedBy}
use backupsage.Coverage.Types.{CoverageSource}
use backupsage.Coverage.Grouping.{check_distinct, in_id_order}

abbrev pub source_ids : List CoverageSource → List ℤ
source_ids = map (λ s. s.source_id)

neighbours_differ :
    (sources : List CoverageSource) {u : Unit {0}}
    → check_distinct sources ≡ ok u
    → NeighboursDiffer (λ s. s.source_id) sources
unfolding check_distinct
neighbours_differ [] e = tt
neighbours_differ (a ∷ []) e = tt
neighbours_differ (a ∷ b ∷ rest) e =
    let later : check_distinct (b ∷ rest) ≡ ok tt = ground arith in
    (ground (arith, e), neighbours_differ (b ∷ rest) later)

pub in_id_order-IsSorted :
    (sources : List CoverageSource) {u : Unit {0}}
    → check_distinct (in_id_order sources) ≡ ok u
    → IsSorted (source_ids (in_id_order sources))
in_id_order-IsSorted sources e =
    rising (λ s. s.source_id) (in_id_order sources) (sort_by-IsSortedBy (λ s. s.source_id) sources)
      (neighbours_differ (in_id_order sources) e)

-- Among sources with rising ids, what is picked by an id comes from one source.
module _ {A : Type 0} (f : CoverageSource → List A) where
  abbrev pub picked : ℤ → CoverageSource → List A
  picked at s = if eqb at s.source_id then f s else []

  picked_above :
      (at : ℤ) (sources : List CoverageSource)
      → All (λ s. int_ord.cmp at s.source_id ≡ lt) sources
      → flat_map (picked at) sources ≡ []
  picked_above at [] h = refl
  picked_above at (s ∷ sources) h = rw (h.0) (picked_above at sources h.1)

  pub picked-All :
      (sources : List CoverageSource)
      → IsSorted (source_ids sources)
      → All (λ s. flat_map (picked s.source_id) sources ≡ f s) sources
  picked-All [] k = tt
  picked-All (a ∷ rest) (above, k) =
      let lower =
        All-of_map (λ i. int_ord.cmp a.source_id i ≡ lt) (λ (s : CoverageSource). s.source_id) rest
          above in
      (
        rw (int_ord.same a.source_id, picked_above a.source_id rest lower) (append-nil (f a)),
        All-imp (λ s (low, one). ground (arith, int_ord.flipped a.source_id s.source_id)) rest
            (All-and (λ s. int_ord.cmp a.source_id s.source_id ≡ lt)
              (λ s. flat_map (picked s.source_id) rest ≡ f s) rest lower (picked-All rest k)),
      )
