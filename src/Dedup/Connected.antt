-- ===== src/Dedup/Connected.antt =====
-- src/core/dedup.rs: `near_components`: the components are those that near hashes connect.
use mathlib.Core.Path.{ap₂}
use backupsage.Base.{
  lt-length_of_get_elem?, ltb, ◌≡◌, ◌≢◌, refl, sym, ap, subst, inl, inr, ◌↔◌, arith, ℕ, zero, suc,
  ◌+◌, ◌<◌, ◌≤◌, true, some, List, [], ◌∷◌, ◌++◌, length, any, get_elem?, ok, All-imp, Bool-cases,
}
use backupsage.Base.Order.{nat_ord, pair_ord}
use backupsage.Dedup.Near.{Pair, mih_pairs}
use backupsage.Dedup.UnionFind.{near_components}
use backupsage.Dedup.Searched.{is_listed}
use backupsage.Phash.Bands.{hamming_comm}
use backupsage.Dedup.Sound.{IsNear, mih_pairs-IsNear}
use backupsage.Dedup.Recall.{mih_pairs_recall}
use backupsage.Dedup.Roots.{ℕ-cases}
use backupsage.Dedup.Forest.{Chain, here, along, against, Chain-imp, InRange}
use backupsage.Dedup.Clusters.{holds_both}
use backupsage.Dedup.Linked.{Listed, Listed-of_All, IsParted, components_of_lem}

-- Two positions whose hashes differ in no more bits than the threshold.
abbrev pub Near : List ℕ → ℕ → ℕ → ℕ → Type 0
Near hashes threshold a b = IsNear hashes threshold (a, b)

split_at :
    (xs : List ℕ) (i : ℕ) {x : ℕ}
    → get_elem? xs i ≡ some x
    → (ys : List ℕ) × (zs : List ℕ) × (xs ≡ ys ++ x ∷ zs) × (length ys ≡ i)
split_at [] i h = cc
split_at (y ∷ xs) zero h = ([], xs, cc, refl)
split_at (y ∷ xs) (suc i) h =
    let (ys, zs, e, l) = split_at xs i h in (y ∷ ys, zs, ap (λ t. y ∷ t) e, ap suc l)

split_at_two :
    (hashes : List ℕ) (i j : ℕ) {x y : ℕ}
    → i < j
    → get_elem? hashes i ≡ some x
    → get_elem? hashes j ≡ some y
    → (xs : List ℕ) × (ys : List ℕ) × (zs : List ℕ) × (hashes ≡ xs ++ x ∷ (ys ++ y ∷ zs))
      × (length xs ≡ i)
      × (suc (length xs + length ys) ≡ j)
split_at_two [] i j lt hi hj = cc
split_at_two (h ∷ hs) i zero lt hi hj = absurd (omega arith)
split_at_two (h ∷ hs) zero (suc j) lt hi hj =
    let (ys, zs, e, l) = split_at hs j hj in ([], ys, zs, cc, refl, omega arith)
split_at_two (h ∷ hs) (suc i) (suc j) lt hi hj =
    let (xs, ys, zs, e, li, lj) = split_at_two hs i j (omega arith) hi hj in
    (h ∷ xs, ys, zs, ap (λ t. h ∷ t) e, ap suc li, omega arith)

-- The search finds every near pair of positions, in one order or the other.
Near-Listed :
    (hashes : List ℕ) (threshold cap : ℕ) (i j : ℕ)
    → threshold ≤ 3
    → (mih_pairs hashes threshold cap).1 ≡ 0
    → i < j
    → Near hashes threshold i j
    → Listed (mih_pairs hashes threshold cap).0 i j
Near-Listed hashes threshold cap i j bound whole lt (x, y, hx, hy, close) =
    let (xs, ys, zs, e, li, lj) = split_at_two hashes i j lt hx hy in
    subst (λ p. is_listed p (mih_pairs hashes threshold cap).0 ≡ true) (ap₂ (λ a b. (a, b)) li lj)
      (subst
        (λ hs.
          is_listed (length xs, suc (length xs + length ys)) (mih_pairs hs threshold cap).0 ≡ true)
        (sym e)
        (mih_pairs_recall xs ys zs x y threshold cap bound close
          (subst (λ hs. (mih_pairs hs threshold cap).1 ≡ 0) e whole)))

Near-Chain :
    (hashes : List ℕ) (threshold cap : ℕ)
    → threshold ≤ 3
    → (mih_pairs hashes threshold cap).1 ≡ 0
    → (i j : ℕ) → Near hashes threshold i j
    → Chain (Listed (mih_pairs hashes threshold cap).0) i j
Near-Chain hashes threshold cap bound whole i j near =
    let find_near = Near-Listed hashes threshold cap in
    let back : Near hashes threshold j i =
      let (x, y, hx, hy, close) = near in (y, x, hy, hx, omega (arith, hamming_comm x y, close)) in
    elim (ℕ-cases i j) [
      | inl e ↦ subst (Chain (Listed (mih_pairs hashes threshold cap).0) i) e here
      | inr n ↦ elim (Bool-cases (ltb i j)) [
        | inl lt ↦ along (find_near i j bound whole (ground (arith, lt)) near) here
        | inr ge ↦ against (find_near j i bound whole (ground (arith, ge, n)) back) here
      ]
    ]

pub near-InRange :
    (hashes : List ℕ) (threshold : ℕ) (p : Pair)
    → IsNear hashes threshold p
    → InRange (length hashes) p
near-InRange hashes threshold p (x, y, hx, hy, close) =
    (lt-length_of_get_elem? hashes p.0 hx, lt-length_of_get_elem? hashes p.1 hy)

-- For a threshold of at most 3, and when no bucket was too large, `near_components` ends without a
-- panic, its components are disjoint groups of two positions of the list at least, and two
-- different positions stand together in one of them just when a chain of positions, each with a
-- hash within the threshold of the one before, leads from one to the other.
pub near_components_lem :
    (hashes : List ℕ) (threshold cap : ℕ)
    → threshold ≤ 3
    → (near_components hashes threshold cap).1 ≡ 0
    → (cs : List (List ℕ)) × ((near_components hashes threshold cap).0 ≡ ok cs)
      × IsParted (length hashes) cs
      × ((x y : ℕ)
          → x < length hashes
          → y < length hashes
          → x ≢ y
          → (any (holds_both x y) cs ≡ true) ↔ Chain (Near hashes threshold) x y)
unfolding near_components
near_components_lem hashes threshold cap bound whole =
    let found = mih_pairs hashes threshold cap in
    let near = mih_pairs-IsNear hashes threshold cap in
    let (cs, ran, inside, split) =
      components_of_lem (length hashes) found.0
        (All-imp (near-InRange hashes threshold) found.0 near) in
    (
      cs,
      ran,
      inside,
      λ x y lx ly n.
          let (sound, whole_chain) = split x y lx ly n in
          (
            λ h.
                Chain-imp
                  (λ a b l. along (Listed-of_All (Near hashes threshold) found.0 a b near l) here)
                  (sound h),
            λ h. whole_chain (Chain-imp (Near-Chain hashes threshold cap bound whole) h),
          ),
    )
