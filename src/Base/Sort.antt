-- ===== src/Base/Sort.antt =====
-- Rust's stable `sort_by_key` and `sort`, as an insertion sort.
use Prim.Native.Nat.{ℕ}
use Prim.Native.Nat.Ordering.{lt}
use mathlib.Core.Path.{◌≡◌, refl}
use mathlib.Core.Bool.{Bool, true, false}
use mathlib.Core.List.{List, [], ◌∷◌, map}
use native.Mathlib.Omega.{arith}
use backupsage.Base.Tests.{if◌then◌else◌}
use backupsage.Base.Lists.{count, sum_by, All, All-imp}
use backupsage.Base.Order.{Ord, lessb, eqb, IsSorted}

module _ {ℓ κ} {A : Type ℓ} {K : Type κ} ⦃o : Ord K⦄ (key : A → K) where
  unfoldable pub insert_by : A → List A → List A
  insert_by x [] = x ∷ []
  insert_by x (y ∷ ys) =
      let rest = insert_by x ys in if lessb (key y) (key x) then y ∷ rest else x ∷ y ∷ ys

  unfoldable pub sort_by : List A → List A
  sort_by [] = []
  sort_by (x ∷ xs) = insert_by x (sort_by xs)

  count-insert_by :
      (p : A → Bool) (x : A) (xs : List A) → count p (insert_by x xs) ≡ count p (x ∷ xs)
  unfolding insert_by
  count-insert_by p x [] = refl
  count-insert_by p x (y ∷ ys) = ground (arith, count-insert_by p x ys)

  -- Sorting keeps every value as often as it was there.
  pub count-sort_by : (p : A → Bool) (xs : List A) → count p (sort_by xs) ≡ count p xs
  unfolding sort_by
  count-sort_by p [] = refl
  count-sort_by p (x ∷ xs) = omega (arith, count-insert_by p x (sort_by xs), count-sort_by p xs)

  sum_by-insert_by :
      (w : A → ℕ) (x : A) (xs : List A) → sum_by w (insert_by x xs) ≡ sum_by w (x ∷ xs)
  unfolding insert_by
  sum_by-insert_by w x [] = refl
  sum_by-insert_by w x (y ∷ ys) = ground (arith, sum_by-insert_by w x ys)

  pub sum_by-sort_by : (w : A → ℕ) (xs : List A) → sum_by w (sort_by xs) ≡ sum_by w xs
  unfolding sort_by
  sum_by-sort_by w [] = refl
  sum_by-sort_by w (x ∷ xs) = omega (arith, sum_by-insert_by w x (sort_by xs), sum_by-sort_by w xs)

  pub All-insert_by {μ} :
      (P : A → Type μ) (x : A) (xs : List A) → P x → All P xs → All P (insert_by x xs)
  unfolding insert_by
  All-insert_by P x [] p h = (p, tt)
  All-insert_by P x (y ∷ ys) p h =
      elim (lessb (key y) (key x)) as (λ b. All P (if b then y ∷ insert_by x ys else x ∷ y ∷ ys)) [
        | true ↦ (h.0, All-insert_by P x ys p h.1)
        | false ↦ (p, h)
      ]

  pub All-sort_by {μ} : (P : A → Type μ) (xs : List A) → All P xs → All P (sort_by xs)
  unfolding sort_by
  All-sort_by P [] h = tt
  All-sort_by P (x ∷ xs) (p, h) = All-insert_by P x (sort_by xs) p (All-sort_by P xs h)

  All-of_insert_by {μ} :
      (P : A → Type μ) (x : A) (xs : List A) → All P (insert_by x xs) → P x × All P xs
  unfolding insert_by
  All-of_insert_by P x [] h = (h.0, tt)
  All-of_insert_by P x (y ∷ ys) h = split (All-of_insert_by P x ys) (lessb (key y) (key x)) h
    where
      split :
          (All P (insert_by x ys) → P x × All P ys)
          → (b : Bool) → All P (if b then y ∷ insert_by x ys else x ∷ y ∷ ys)
          → P x × All P (y ∷ ys)
      split later true k = let (p, rest) = later k.1 in (p, (k.0, rest))
      split later false k = k

  pub All-of_sort_by {μ} : (P : A → Type μ) (xs : List A) → All P (sort_by xs) → All P xs
  unfolding sort_by
  All-of_sort_by P [] h = tt
  All-of_sort_by P (x ∷ xs) h =
      let (p, rest) = All-of_insert_by P x (sort_by xs) h in (p, All-of_sort_by P xs rest)

  -- Keys never fall along the list.
  abbrev pub IsSortedBy : List A → Type 0
  IsSortedBy [] = Unit
  IsSortedBy (x ∷ xs) = All (λ y. lessb (key y) (key x) ≡ false) xs × IsSortedBy xs

  pub not-lessb_trans :
      (a b c : A)
      → lessb (key b) (key a) ≡ false
      → lessb (key c) (key b) ≡ false
      → lessb (key c) (key a) ≡ false
  not-lessb_trans a b c p q = ground (
    arith,
    o.flipped (key a) (key b),
    o.flipped (key b) (key c),
    o.eq_of (key a) (key b),
    o.eq_of (key b) (key c),
    o.flipped (key a) (key c),
    o.lt_trans (key a) (key b) (key c),
  )

  insert_by-IsSortedBy : (x : A) (xs : List A) → IsSortedBy xs → IsSortedBy (insert_by x xs)
  unfolding insert_by
  insert_by-IsSortedBy x [] s = (tt, tt)
  insert_by-IsSortedBy x (y ∷ ys) s = ground (
    arith,
    o.flipped (key x) (key y),
    insert_by-IsSortedBy x ys s.1,
    All-insert_by (λ z. lessb (key z) (key y) ≡ false) x ys,
    λ (h : lessb (key y) (key x) ≡ false).
        All-imp {Q = λ z. lessb (key z) (key x) ≡ false} (λ z. not-lessb_trans x y z h) ys s.0,
  )

  pub sort_by-IsSortedBy : (xs : List A) → IsSortedBy (sort_by xs)
  unfolding sort_by
  sort_by-IsSortedBy [] = tt
  sort_by-IsSortedBy (x ∷ xs) = insert_by-IsSortedBy x (sort_by xs) (sort_by-IsSortedBy xs)

  -- Each key differs from the next one.
  abbrev pub NeighboursDiffer : List A → Type 0
  NeighboursDiffer (x ∷ y ∷ xs) = (eqb (key x) (key y) ≡ false) × NeighboursDiffer (y ∷ xs)
  NeighboursDiffer [] = Unit
  NeighboursDiffer (x ∷ []) = Unit

  -- Keys that never fall and differ from their neighbours rise.
  pub rising : (xs : List A) → IsSortedBy xs → NeighboursDiffer xs → IsSorted (map key xs)
  rising [] k d = tt
  rising (x ∷ []) k d = (tt, tt)
  rising (x ∷ y ∷ xs) k d =
      let (above, sorted) = rising (y ∷ xs) k.1 d.1 in
      let first : o.cmp (key x) (key y) ≡ lt =
        ground (arith, k.0.0, d.0, o.flipped (key x) (key y)) in
      (
        (first, All-imp (λ i. o.lt_trans (key x) (key y) i first) (map key xs) above),
        (above, sorted),
      )
