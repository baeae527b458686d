-- ===== src/Dedup/Linked.antt =====
-- src/core/dedup.rs: `near_components`: the components are those that the pairs connect.
use backupsage.Dedup.Parted.{
  sorted_components-All, sorted_components-apart, sorted_components-IsReviewGroup,
}
use backupsage.Base.{
  count, ◌≡◌, ◌≢◌, refl, sym, ap, subst, ◌∙◌, inl, inr, ◌↔◌, arith, ℕ, zero, suc, ◌+◌, ◌<◌, ◌≤◌,
  true, some, List, [], ◌∷◌, length, any, get_elem?, ok, All, All-imp, Bool-cases,
}
use backupsage.Base.Order.{nat_ord, pair_ord, eqb, eqb_refl, eqb_iff}
use backupsage.Dedup.Near.{Pair}
use backupsage.Dedup.UnionFind.{range, new, components_of, sorted_components}
use backupsage.Dedup.Searched.{is_listed}
use backupsage.Dedup.Roots.{stop}
use backupsage.Dedup.Forest.{Chain, here, Chain-root, IsForest, InRange, union_all-IsForest}
use backupsage.Dedup.Clusters.{
  clusters_from_lem, holds, holds_both, sorted_components-together, together-root,
}

abbrev pub Listed : List Pair → ℕ → ℕ → Type 0
Listed pairs a b = is_listed (a, b) pairs ≡ true

get_elem?-range : (i n x : ℕ) → x < n → get_elem? (range i n) x ≡ some (i + x)
get_elem?-range i zero x h = absurd (omega arith)
get_elem?-range i (suc n) zero h = ap some (omega arith)
get_elem?-range i (suc n) (suc x) h =
    get_elem?-range (i + 1) n x (omega arith) ∙ ap some (omega arith)

length-range : (i n : ℕ) → length (range i n) ≡ n
length-range i zero = refl
length-range i (suc n) = ap suc (length-range (i + 1) n)

All-range : (i n : ℕ) → All (λ x. x < i + n) (range i n)
All-range i zero = tt
All-range i (suc n) =
    (omega arith, All-imp (λ x h. omega arith) (range (i + 1) n) (All-range (i + 1) n))

new-IsForest : (n : ℕ) → IsForest n 1 (λ x. x) (new n)
unfolding new
new-IsForest n = record {
  size = length-range 0 n;
  climbs = λ x l. stop (get_elem?-range 0 n x l ∙ ap some (omega arith));
}

All-Listed : (pairs : List Pair) → All (λ p. Listed pairs p.0 p.1) pairs
All-Listed [] = tt
All-Listed (p ∷ pairs) =
    (ground (arith, eqb_refl p), All-imp (λ q h. ground (arith, h)) pairs (All-Listed pairs))

pub Listed-of_All :
    (P : ℕ → ℕ → Type 0) (pairs : List Pair) (a b : ℕ)
    → All (λ p. P p.0 p.1) pairs
    → Listed pairs a b
    → P a b
Listed-of_All P [] a b hs h = cc
Listed-of_All P (p ∷ pairs) a b (hp, hs) h = elim (Bool-cases (eqb (a, b) p)) [
  | inl e ↦ subst (λ q. P q.0 q.1) (sym ((eqb_iff (a, b) p).0 e)) hp
  | inr e ↦ Listed-of_All P pairs a b hs (ground (arith, e))
]

-- Components of positions below `n`: each has two at least, and none shares one with another.
pub record IsParted (n : ℕ) (cs : List (List ℕ)) : Type 0 where
  pub inside : All (All (λ i. i < n)) cs
  pub several : All (λ c. 1 < length c) cs
  pub apart : (x : ℕ) → x < n → count (holds x) cs ≤ 1

-- For pairs of positions below `n`, `near_components` ends after `mih_pairs` without a panic, its
-- components are disjoint groups of two such positions at least, and two different positions stand
-- together in one of them just when a chain of the pairs, read in either direction, leads from one
-- to the other.
pub components_of_lem :
    (n : ℕ) (pairs : List Pair)
    → All (InRange n) pairs
    → (cs : List (List ℕ)) × (components_of (suc (length pairs)) n pairs ≡ ok cs)
      × IsParted n cs
      × ((x y : ℕ)
          → x < n
          → y < n
          → x ≢ y
          → (any (holds_both x y) cs ≡ true) ↔ Chain (Listed pairs) x y)
unfolding components_of
components_of_lem n pairs hs =
    let E = Listed pairs in
    let below : All (λ i. i < n) (range 0 n) =
      All-imp (λ x h. omega arith) (range 0 n) (All-range 0 n) in
    let (R, uf, ran, forest, j) =
      union_all-IsForest E n 1 (suc (length pairs)) (λ x. x) (new n) pairs (omega arith) hs
        (new-IsForest n) in
    let (m, ran', c) =
      clusters_from_lem n (1 + length pairs) (suc (length pairs)) R uf [] (range 0 n) (omega arith)
        below forest in
    (
      sorted_components m,
      rw (ran, ran') refl,
      record {
        inside = sorted_components-All (λ i. i < n) R (range 0 n) m c below;
        several = sorted_components-IsReviewGroup m;
        apart = λ x l. sorted_components-apart R n m x c l;
      },
      λ x y lx ly ne.
          let split = together-root R n m x y c lx ly in
          let same = sorted_components-together x y m ne in
          (
            λ h.
                j.sound (λ a b e. subst (Chain E a) e here) (All-Listed pairs) x y
                  (split.0 (sym same ∙ h)),
            λ h.
                same
                ∙ split.1 (
                    Chain-root E R (λ a b l. Listed-of_All (λ a b. R a ≡ R b) pairs a b j.joins l)
                      h),
          ),
    )
