-- ===== src/Dedup/Parted.antt =====
-- src/core/dedup.rs: `near_components`: the components share no position.
use backupsage.Base.{
  Ordering, ◌≡◌, refl, ap, subst, inl, inr, arith, ℕ, ◌<◌, ◌≤◌, ◌==◌, Bool, true, List, [], ◌∷◌,
  map, filter, count, count-map, sum_by, length, All, All-imp, All-map, Bool-cases,
}
use backupsage.Base.Order.{nat_ord, eqb, eqb_iff, list_ord, IsSorted}
use backupsage.Base.SortedMap.{SortedMap, lookup, values, keys, lookup-All}
use backupsage.Base.Sort.{sum_by-sort_by, sort_by, count-sort_by, All-sort_by}
use backupsage.Dedup.UnionFind.{is_review_group, sorted_components, range}
use backupsage.Dedup.Clusters.{or_no_index, IsClustered, holds, any-sort_by, in_cluster}

All-filter : (P : ℕ → Type 0) (p : ℕ → Bool) (is : List ℕ) → All P is → All P (filter p is)
All-filter P p [] h = tt
All-filter P p (i ∷ is) (hi, h) = elim (Bool-cases (p i)) [
  | inl e ↦ rw e (hi, All-filter P p is h)
  | inr e ↦ rw e (All-filter P p is h)
]

All-filter_lists :
    (P : List ℕ → Type 0) (p : List ℕ → Bool) (cs : List (List ℕ)) → All P cs → All P (filter p cs)
All-filter_lists P p [] h = tt
All-filter_lists P p (c ∷ cs) (hc, h) = elim (Bool-cases (p c)) [
  | inl e ↦ rw e (hc, All-filter_lists P p cs h)
  | inr e ↦ rw e (All-filter_lists P p cs h)
]

-- What holds of the positions holds of all that stand in a component.
pub sorted_components-All :
    (P : ℕ → Type 0) (R : ℕ → ℕ) (is : List ℕ) (m : SortedMap ℕ (List ℕ))
    → IsClustered R is [] m
    → All P is
    → All (All P) (sorted_components m)
unfolding lookup
sorted_components-All P R is m c h =
    let inside : (r : ℕ) → All P (or_no_index (lookup r m)) =
      λ r. rw (c.members r) (All-filter P (λ i. R i == r) is h) in
    let entries : All (λ e. All P e.1) m =
      All-imp (λ e found. subst (λ o. All P (or_no_index o)) found (inside e.0)) m
        (lookup-All m (c.sorted tt)) in
    All-sort_by (λ c. c) (All P) (map (sort_by (λ i. i)) (filter is_review_group (values m)))
      (All-map (All P) (sort_by (λ i. i)) (filter is_review_group (values m)) (
        All-imp (λ c h. All-sort_by (λ i. i) P c h) (filter is_review_group (values m))
          (All-filter_lists (All P) is_review_group (values m)
            (All-map (All P) (λ e. e.1) m entries))))

-- A key stands in a sorted map once at most.
none_above :
    (k : ℕ) (m : SortedMap ℕ (List ℕ))
    → All (λ j. nat_ord.cmp k j ≡ Ordering.lt) (keys m)
    → count (λ e. eqb k e.0) m ≡ 0
none_above k [] h = refl
none_above k ((j, c) ∷ m) (low, h) = ground (arith, low, none_above k m h)

count_key : (r : ℕ) (m : SortedMap ℕ (List ℕ)) → IsSorted (keys m) → count (λ e. eqb r e.0) m ≤ 1
count_key r [] s = omega arith
count_key r ((k, c) ∷ m) (above, s) = elim (Bool-cases (eqb r k)) [
  | inl e ↦
      let none : count (λ e. eqb r e.0) m ≡ 0 = rw ((eqb_iff r k).0 e) (none_above k m above) in
      ground (arith, e, none)
  | inr e ↦ ground (arith, e, count_key r m s)
]

count-le :
    {A : Type 0} (p q : A → Bool) (xs : List A)
    → All (λ x. p x ≡ true → q x ≡ true) xs
    → count p xs ≤ count q xs
count-le p q [] h = omega arith
count-le p q (x ∷ xs) (hx, h) = ground (arith, count-le p q xs h)

count-filter : {A : Type 0} (p q : A → Bool) (xs : List A) → count p (filter q xs) ≤ count p xs
count-filter p q [] = omega arith
count-filter p q (x ∷ xs) = ground (arith, count-filter p q xs)

count-same :
    {A : Type 0} (p q : A → Bool) (xs : List A) → ((x : A) → p x ≡ q x) → count p xs ≡ count q xs
count-same p q [] h = refl
count-same p q (x ∷ xs) h = rw (h x) (omega (arith, count-same p q xs h))

-- No position stands in two components.
pub sorted_components-apart :
    (R : ℕ → ℕ) (n : ℕ) (m : SortedMap ℕ (List ℕ)) (x : ℕ)
    → IsClustered R (range 0 n) [] m
    → x < n
    → count (holds x) (sorted_components m) ≤ 1
unfolding lookup nat_ord
sorted_components-apart R n m x c l =
    let groups = filter is_review_group (values m) in
    let at_root : All (λ e. holds x e.1 ≡ true → eqb (R x) e.0 ≡ true) m =
      All-imp
        (λ e found h.
          ground (arith, in_cluster R n m x e.0 c l, h, ap (holds x) (ap or_no_index found)))
        m (lookup-All m (c.sorted tt)) in
    omega (
      arith,
      count-sort_by (λ c. c) (holds x) (map (sort_by (λ i. i)) groups),
      count-map (holds x) (sort_by (λ i. i)) groups,
      count-same (λ c. holds x (sort_by (λ i. i) c)) (holds x) groups
          (λ c. any-sort_by (λ i. i) (λ i. i == x) c),
      count-filter (holds x) is_review_group (values m),
      count-map (holds x) (λ e. e.1) m,
      count-le (λ e. holds x e.1) (λ e. eqb (R x) e.0) m at_root,
      count_key (R x) m (c.sorted tt),
    )

sizes : {A : Type 0} (xs : List A) → length xs ≡ sum_by (λ _. 1) xs
sizes [] = refl
sizes (x ∷ xs) = omega (arith, sizes xs)

filter-All : {A : Type 0} (p : A → Bool) (xs : List A) → All (λ x. p x ≡ true) (filter p xs)
filter-All p [] = tt
filter-All p (x ∷ xs) = elim (Bool-cases (p x)) [
  | inl e ↦ rw e (e, filter-All p xs)
  | inr e ↦ rw e (filter-All p xs)
]

-- Each component has two positions at least.
pub sorted_components-IsReviewGroup :
    (m : SortedMap ℕ (List ℕ)) → All (λ c. 1 < length c) (sorted_components m)
sorted_components-IsReviewGroup m =
    let groups = filter is_review_group (values m) in
    All-sort_by (λ c. c) (λ c. 1 < length c) (map (sort_by (λ i. i)) groups)
      (All-map (λ c. 1 < length c) (sort_by (λ i. i)) groups
        (All-imp
          (λ c h. omega (
            arith,
            sizes c,
            sizes (sort_by (λ i. i) c),
            sum_by-sort_by (λ i. i) (λ _. 1) c,
            more_than_one c h,
          ))
          groups (filter-All is_review_group (values m))))
  where
    more_than_one : (c : List ℕ) → is_review_group c ≡ true → 1 < length c
    more_than_one c h = ground (arith, h)
