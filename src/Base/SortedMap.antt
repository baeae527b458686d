-- ===== src/Base/SortedMap.antt =====
-- Rust's `BTreeMap` and `BTreeSet` as association lists in key order. A `HashMap` that is only
-- looked up is modelled by the same lists.
use Prim.Native.Nat.{ℕ, ◌+◌}
use Prim.Native.Nat.Ordering.{lt, eq, gt}
use mathlib.Core.Path.{◌≡◌, refl, sym, subst}
use mathlib.Core.Bool.{false}
use mathlib.Core.List.{List, [], ◌∷◌, map}
use mathlib.Core.Option.{Option, none, some}
use native.Mathlib.Omega.{arith}
use backupsage.Base.Tests.{if◌then◌else◌}
use backupsage.Base.Lists.{All-and, All-of_map, sum_by, All, All-imp}
use backupsage.Base.Order.{Ord, eqb, IsSorted}

abbrev pub SortedMap {ℓ κ} : Type ℓ → Type κ → Type (ℓ ⊔ κ)
SortedMap K V = List (K × V)

module _ {ℓ κ} {K : Type ℓ} {V : Type κ} where
  abbrev pub keys : SortedMap K V → List K
  keys = map (λ e. e.0)

  -- `into_values`
  abbrev pub values : SortedMap K V → List V
  values = map (λ e. e.1)

  -- What a map weighs, entry by entry.
  abbrev pub weigh : (V → ℕ) → SortedMap K V → ℕ
  weigh w m = sum_by (λ e. w e.1) m

abbrev pub weigh_option {κ} : {V : Type κ} → (V → ℕ) → Option V → ℕ
weigh_option w none = 0
weigh_option w (some v) = w v

module _ {ℓ κ} {K : Type ℓ} {V : Type κ} ⦃o : Ord K⦄ where
  -- The walk stops at the first greater key.
  unfoldable pub lookup : K → SortedMap K V → Option V
  lookup k [] = none
  lookup k ((j, v) ∷ m) = elim (o.cmp k j) [ lt ↦ none | eq ↦ some v | gt ↦ lookup k m ]

  -- `m.entry(k)`, with `f` giving the new value from the old one.
  unfoldable pub upsert : K → (Option V → V) → SortedMap K V → SortedMap K V
  upsert k f [] = (k, f none) ∷ []
  upsert k f ((j, v) ∷ m) = elim (o.cmp k j) [
    | lt ↦ (k, f none) ∷ (j, v) ∷ m
    | eq ↦ (j, f (some v)) ∷ m
    | gt ↦ (j, v) ∷ upsert k f m
  ]

  pub lookup-upsert_self :
      (k : K) (f : Option V → V) (m : SortedMap K V)
      → lookup k (upsert k f m) ≡ some (f (lookup k m))
  unfolding lookup upsert
  lookup-upsert_self k f [] = rw (o.same k)
  lookup-upsert_self k f ((j, v) ∷ m) = ground (arith, o.same k, lookup-upsert_self k f m)

  pub lookup-upsert_ne :
      (k j : K) (f : Option V → V) (m : SortedMap K V)
      → eqb j k ≡ false
      → lookup j (upsert k f m) ≡ lookup j m
  unfolding lookup upsert
  lookup-upsert_ne k j f [] h = ground arith
  lookup-upsert_ne k j f ((i, v) ∷ m) h =
      ground (arith, o.eq_of k i, o.lt_trans j k i, lookup-upsert_ne k j f m h)

  -- A map reads as a function, changed at one key.
  pub lookup-upsert :
      (k j : K) (f : Option V → V) (m : SortedMap K V)
      → lookup j (upsert k f m) ≡ (if eqb j k then some (f (lookup k m)) else lookup j m)
  lookup-upsert k j f m =
      ground (arith, o.eq_of j k, lookup-upsert_self k f m, lookup-upsert_ne k j f m)

  pub weigh-upsert :
      (w : V → ℕ) (k : K) (f : Option V → V) (m : SortedMap K V)
      → weigh w (upsert k f m) + weigh_option w (lookup k m) ≡ weigh w m + w (f (lookup k m))
  unfolding lookup upsert
  weigh-upsert w k f [] = omega arith
  weigh-upsert w k f ((j, v) ∷ m) = ground (arith, weigh-upsert w k f m)

  pub All-upsert :
      (P : K → Type 0) (k : K) (f : Option V → V) (m : SortedMap K V)
      → P k
      → All P (keys m)
      → All P (keys (upsert k f m))
  unfolding upsert
  All-upsert P k f [] p h = (p, tt)
  All-upsert P k f ((j, v) ∷ m) p h = ground (arith, All-upsert P k f m p h.1)

  -- What holds of the values that are there, or were made from them, holds of all.
  pub All-upsert_value :
      (P : V → Type 0) (k : K) (f : Option V → V) (m : SortedMap K V)
      → P (f none)
      → ((v : V) → P v → P (f (some v)))
      → All (λ e. P e.1) m
      → All (λ e. P e.1) (upsert k f m)
  unfolding upsert
  All-upsert_value P k f [] new old h = (new, tt)
  All-upsert_value P k f ((j, v) ∷ m) new old h =
      ground (arith, old v h.0, All-upsert_value P k f m new old h.1)

  -- The same of the entries, keys and values.
  pub upsert_entry-All :
      (P : K × V → Type 0) (k : K) (f : Option V → V) (m : SortedMap K V)
      → P (k, f none)
      → ((v : V) → P (k, v) → P (k, f (some v)))
      → All P m
      → All P (upsert k f m)
  unfolding upsert
  upsert_entry-All P k f [] new old h = (new, tt)
  upsert_entry-All P k f ((j, v) ∷ m) new old (p, h) = ground (
    arith,
    o.eq_of k j,
    λ (e : k ≡ j). subst (λ i. P (i, f (some v))) e (old v (subst (λ i. P (i, v)) (sym e) p)),
    upsert_entry-All P k f m new old h,
  )

  pub upsert-IsSorted :
      (k : K) (f : Option V → V) (m : SortedMap K V)
      → IsSorted (keys m)
      → IsSorted (keys (upsert k f m))
  unfolding upsert
  upsert-IsSorted k f [] s = (tt, tt)
  upsert-IsSorted k f ((j, v) ∷ m) s = ground (
    arith,
    o.flipped k j,
    upsert-IsSorted k f m s.1,
    All-upsert (λ i. o.cmp j i ≡ lt) k f m,
    λ (h : o.cmp k j ≡ lt).
        All-imp {Q = λ i. o.cmp k i ≡ lt} (λ i q. o.lt_trans k j i h q) (keys m) s.0,
  )

  -- A key below all the others is not there.
  pub lookup-below :
      (k : K) (m : SortedMap K V) → All (λ j. o.cmp k j ≡ lt) (keys m) → lookup k m ≡ none
  unfolding lookup
  lookup-below k [] h = refl
  lookup-below k ((j, v) ∷ m) h = ground arith

  -- In key order each entry is the one that a lookup of its key finds.
  pub lookup-All : (m : SortedMap K V) → IsSorted (keys m) → All (λ e. lookup e.0 m ≡ some e.1) m
  unfolding lookup
  lookup-All [] s = tt
  lookup-All ((k, v) ∷ m) (above, s) = (
    ground (arith, o.same k),
    All-imp (λ e (low, found). ground (arith, o.flipped k e.0)) m
        (All-and (λ e. o.cmp k e.0 ≡ lt) (λ e. lookup e.0 m ≡ some e.1) m
          (All-of_map (λ j. o.cmp k j ≡ lt) (λ (e : K × V). e.0) m above) (lookup-All m s)),
  )

  -- What holds of every entry holds of one that a lookup finds.
  pub All-lookup :
      (P : K × V → Type 0) (m : SortedMap K V) (k : K) (v : V)
      → All P m
      → lookup k m ≡ some v
      → P (k, v)
  unfolding lookup
  All-lookup P [] k v h e = cc
  All-lookup P ((j, w) ∷ m) k v (p, h) e = ground (arith, o.eq_of k j, All-lookup P m k v h)
