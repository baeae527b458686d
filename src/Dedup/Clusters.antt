-- ===== src/Dedup/Clusters.antt =====
-- src/core/dedup.rs: `near_components`: which positions stand in one component.
use backupsage.Base.{
  ◌≡◌, ◌≢◌, refl, sym, ap, ◌∙◌, inl, inr, ◌↔◌, arith, ℕ, zero, suc, ◌+◌, ◌<◌, ◌≤◌, not, ◌==◌, ltb,
  Bool, true, false, ◌&&◌, ◌||◌, Option, none, some, List, [], ◌∷◌, ◌++◌, append-nil, append_assoc,
  map, any, filter, count, if◌then◌else◌, ok, All, Bool-cases,
}
use backupsage.Base.Order.{Ord, nat_ord, eqb, eqb_iff, list_ord, IsSorted}
use backupsage.Base.SortedMap.{
  SortedMap, lookup, upsert, values, keys, lookup-upsert, upsert-IsSorted, lookup-All,
}
use backupsage.Base.Sort.{sort_by, count-sort_by}
use backupsage.Dedup.UnionFind.{
  UnionFind, push_index, clusters_from, is_review_group, sorted_components, range,
}
use backupsage.Dedup.Forest.{IsForest, find-IsForest}

abbrev pub or_no_index : Option (List ℕ) → List ℕ
or_no_index none = []
or_no_index (some is) = is

push_index-append :
    (i : ℕ) (o : Option (List ℕ)) (rest : List ℕ)
    → push_index i o ++ rest ≡ or_no_index o ++ i ∷ rest
push_index-append i none rest = refl
push_index-append i (some is) rest = append_assoc is (i ∷ []) rest

-- The cluster of a root holds the positions with that root, in their order.
pub record IsClustered (R : ℕ → ℕ) (is : List ℕ) (m m' : SortedMap ℕ (List ℕ)) : Type 0 where
  pub members :
      (r : ℕ) → or_no_index (lookup r m') ≡ or_no_index (lookup r m) ++ filter (λ i. R i == r) is
  pub sorted : IsSorted (keys m) → IsSorted (keys m')

pub clusters_from_lem :
    (n d fuel : ℕ) (R : ℕ → ℕ) (uf : UnionFind) (m : SortedMap ℕ (List ℕ)) (is : List ℕ)
    → d ≤ fuel
    → All (λ i. i < n) is
    → IsForest n d R uf
    → (m' : SortedMap ℕ (List ℕ)) × (clusters_from fuel uf m is ≡ ok m') × IsClustered R is m m'
unfolding clusters_from nat_ord
clusters_from_lem n d fuel R uf m [] le hs h = (
  m,
  refl,
  record { members = λ r. sym (append-nil (or_no_index (lookup r m))); sorted = λ s. s },
)
clusters_from_lem n d fuel R uf m (i ∷ is) le (lt, hs) h =
    let (uf₁, found, h₁) = find-IsForest n d fuel R uf i le lt h in
    let m₁ = upsert (R i) (push_index i) m in
    let (m', ran, c) = clusters_from_lem n d fuel R uf₁ m₁ is le hs h₁ in
    (
      m',
      rw found ran,
      record {
        sorted = λ s. c.sorted (upsert-IsSorted (R i) (push_index i) m s);
        members = λ r. c.members r ∙ rw (lookup-upsert (R i) r (push_index i) m) (step r);
      },
    )
  where
    step :
        (r : ℕ)
        → or_no_index (if eqb r (R i) then some (push_index i (lookup (R i) m)) else lookup r m)
            ++ filter (λ j. R j == r) is
          ≡ or_no_index (lookup r m) ++ filter (λ j. R j == r) (i ∷ is)
    step r = elim (Bool-cases (eqb r (R i))) [
      | inl same ↦
          let is_r : (R i == r) ≡ true = ground (arith, same) in
          let at : lookup (R i) m ≡ lookup r m =
            ap (λ k. lookup k m) (sym ((eqb_iff r (R i)).0 same)) in
          rw (same, is_r, at) (push_index-append i (lookup r m) (filter (λ j. R j == r) is))
      | inr other ↦
          let is_other : (R i == r) ≡ false = ground (arith, other) in rw (other, is_other) refl
    ]

-- Whether two positions stand in a list together.
abbrev pub holds : ℕ → List ℕ → Bool
holds x c = any (λ i. i == x) c

abbrev pub holds_both : ℕ → ℕ → List ℕ → Bool
holds_both x y c = holds x c && holds y c

holds_both-IsReviewGroup :
    (x y : ℕ) (c : List ℕ) → x ≢ y → (is_review_group c && holds_both x y c) ≡ holds_both x y c
holds_both-IsReviewGroup x y [] n = refl
holds_both-IsReviewGroup x y (i ∷ []) n = ground (arith, n)
holds_both-IsReviewGroup x y (i ∷ (j ∷ c)) n = ground arith

module _ {ℓ} {A : Type ℓ} where
  any-count : (p : A → Bool) (xs : List A) → any p xs ≡ ltb 0 (count p xs)
  any-count p [] = refl
  any-count p (x ∷ xs) = ground (arith, any-count p xs)

  pub any-sort_by {κ} :
      {K : Type κ} ⦃o : Ord K⦄ (key : A → K) (p : A → Bool) (xs : List A)
      → any p (sort_by key xs) ≡ any p xs
  any-sort_by key p xs =
      any-count p (sort_by key xs) ∙ ap (ltb 0) (count-sort_by key p xs) ∙ sym (any-count p xs)

  any-filter : (p q : A → Bool) (xs : List A) → any p (filter q xs) ≡ any (λ x. q x && p x) xs
  any-filter p q [] = refl
  any-filter p q (x ∷ xs) = ground (arith, any-filter p q xs)

  any-same : (p q : A → Bool) (xs : List A) → ((x : A) → p x ≡ q x) → any p xs ≡ any q xs
  any-same p q [] h = refl
  any-same p q (x ∷ xs) h = rw (h x, any-same p q xs h) refl

  some_of_any :
      (p : A → Bool) (P : A → Type 0) (xs : List A)
      → All P xs
      → any p xs ≡ true
      → (x : A) × P x × (p x ≡ true)
  some_of_any p P [] hs h = cc
  some_of_any p P (x ∷ xs) (px, hs) h = elim (Bool-cases (p x)) [
    | inl e ↦ (x, px, e)
    | inr e ↦ some_of_any p P xs hs (ground (arith, e))
  ]

any-map {ℓ κ} :
    {A : Type ℓ} {B : Type κ} (p : B → Bool) (f : A → B) (xs : List A)
    → any p (map f xs) ≡ any (λ x. p (f x)) xs
any-map p f [] = refl
any-map p f (x ∷ xs) = ap (λ b. p (f x) || b) (any-map p f xs)

-- Sorting, and leaving out the clusters of one, changes nothing for two different positions.
pub sorted_components-together :
    (x y : ℕ) (m : SortedMap ℕ (List ℕ))
    → x ≢ y
    → any (holds_both x y) (sorted_components m) ≡ any (λ e. holds_both x y e.1) m
sorted_components-together x y m n =
    let groups = filter is_review_group (values m) in
    any-sort_by (λ c. c) (holds_both x y) (map (sort_by (λ i. i)) groups)
    ∙ any-map (holds_both x y) (sort_by (λ i. i)) groups
    ∙ any-same (λ c. holds_both x y (sort_by (λ i. i) c)) (holds_both x y) groups
        (λ c. rw (any-sort_by (λ i. i) (λ i. i == x) c, any-sort_by (λ i. i) (λ i. i == y) c) refl)
    ∙ any-filter (holds_both x y) is_review_group (values m)
    ∙ any-same (λ c. is_review_group c && holds_both x y c) (holds_both x y) (values m)
        (λ c. holds_both-IsReviewGroup x y c n)
    ∙ any-map (holds_both x y) (λ e. e.1) m

any_of_lookup :
    (p : List ℕ → Bool) (r : ℕ) (m : SortedMap ℕ (List ℕ))
    → p (or_no_index (lookup r m)) ≡ true
    → p [] ≡ false
    → any (λ e. p e.1) m ≡ true
unfolding lookup nat_ord
any_of_lookup p r [] h empty = cc
any_of_lookup p r ((k, c) ∷ m) h empty = ground (arith, any_of_lookup p r m)

holds-filter : (x : ℕ) (p : ℕ → Bool) (is : List ℕ) → holds x (filter p is) ≡ (p x && holds x is)
holds-filter x p [] = ground arith
holds-filter x p (i ∷ is) = elim (Bool-cases (i == x)) [
  | inl e ↦ let same : p i ≡ p x = ap p (ground arith) in ground (arith, holds-filter x p is)
  | inr e ↦ ground (arith, holds-filter x p is)
]

holds-range : (x i n : ℕ) → holds x (range i n) ≡ (not (ltb x i) && ltb x (i + n))
holds-range x i zero = ground arith
holds-range x i (suc n) = ground (arith, holds-range x (i + 1) n)

-- A position stands in the cluster of its root.
pub in_cluster :
    (R : ℕ → ℕ) (n : ℕ) (m : SortedMap ℕ (List ℕ)) (z r : ℕ)
    → IsClustered R (range 0 n) [] m
    → z < n
    → holds z (or_no_index (lookup r m)) ≡ (R z == r)
unfolding lookup
in_cluster R n m z r c l =
    rw (c.members r)
      (holds-filter z (λ i. R i == r) (range 0 n) ∙ rw (holds-range z 0 n) (ground (arith, l)))

-- Two positions are together in some cluster just when they have the same root.
pub together-root :
    (R : ℕ → ℕ) (n : ℕ) (m : SortedMap ℕ (List ℕ)) (x y : ℕ)
    → IsClustered R (range 0 n) [] m
    → x < n
    → y < n
    → (any (λ e. holds_both x y e.1) m ≡ true) ↔ (R x ≡ R y)
unfolding lookup
together-root R n m x y c lx ly = (to, from)
  where
    to : any (λ e. holds_both x y e.1) m ≡ true → R x ≡ R y
    to h =
        let (e, found, both) =
          some_of_any (λ e. holds_both x y e.1) (λ e. lookup e.0 m ≡ some e.1) m
            (lookup-All m (c.sorted tt)) h in
        let at : or_no_index (lookup e.0 m) ≡ e.1 = ap or_no_index found in
        ground (
          arith,
          both,
          in_cluster R n m x e.0 c lx,
          in_cluster R n m y e.0 c ly,
          ap (holds x) at,
          ap (holds y) at,
        )

    from : R x ≡ R y → any (λ e. holds_both x y e.1) m ≡ true
    from h =
        any_of_lookup (holds_both x y) (R x) m
          (ground (arith, in_cluster R n m x (R x) c lx, in_cluster R n m y (R x) c ly)) refl
