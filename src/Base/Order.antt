-- ===== src/Base/Order.antt =====
-- Rust's `Ord`: a total comparison whose equality is the equality of values.
use Prim.Native.Nat.{ℕ, compare, Ordering}
use Prim.Native.Nat.Ordering.{lt, eq, gt}
use mathlib.Core.Path.{◌≡◌, refl, ap, sym}
use mathlib.Core.Option.{Option, none, some}
use mathlib.Core.Logic.{◌↔◌}
use mathlib.Core.Bool.{Bool, true, false}
use mathlib.Core.List.{List, [], ◌∷◌}
use native.Mathlib.Omega.{arith}
use backupsage.Base.Lists.{All}
use backupsage.Base.Int.{ℤ, compare_ℤ}

abbrev pub flip : Ordering → Ordering
flip lt = gt
flip eq = eq
flip gt = lt

pub record IsTotal {ℓ} {K : Type ℓ} (cmp : K → K → Ordering) : Type ℓ where
  pub lt_trans : (a b c : K) → cmp a b ≡ lt → cmp b c ≡ lt → cmp a c ≡ lt
  pub same : (a : K) → cmp a a ≡ eq
  pub eq_of : (a b : K) → cmp a b ≡ eq → a ≡ b
  pub flipped : (a b : K) → cmp b a ≡ flip (cmp a b)

pub record Ord {ℓ} (K : Type ℓ) : Type ℓ where
  pub cmp : K → K → Ordering
  pub total : IsTotal cmp
  pub open total use *

abbrev pub is_eq : Ordering → Bool
is_eq eq = true
is_eq _ = false

abbrev pub is_lt : Ordering → Bool
is_lt lt = true
is_lt _ = false

-- Rust's `==`, `<` and `<=` of an ordered type.
module _ {ℓ} {K : Type ℓ} ⦃o : Ord K⦄ where
  abbrev pub eqb : K → K → Bool
  eqb a b = is_eq (o.cmp a b)

  abbrev pub lessb : K → K → Bool
  lessb a b = is_lt (o.cmp a b)

  pub eqb_iff : (a b : K) → (eqb a b ≡ true) ↔ (a ≡ b)
  eqb_iff a b = (λ h. o.eq_of a b (ground arith), λ h. rw (h, o.same b))

  pub eqb_refl : (a : K) → eqb a a ≡ true
  eqb_refl a = rw (o.same a)

-- Values rise strictly along the list.
module _ {ℓ} {K : Type ℓ} ⦃o : Ord K⦄ where
  abbrev pub IsSorted : List K → Type 0
  IsSorted [] = Unit
  IsSorted (x ∷ xs) = All (λ y. o.cmp x y ≡ lt) xs × IsSorted xs

pub compare-IsTotal : IsTotal compare
compare-IsTotal = ground arith

instance unfoldable pub nat_ord : Ord ℕ
nat_ord = record { cmp = compare; total = compare-IsTotal }

compare_ℤ-lt_trans : (a b c : ℤ) → compare_ℤ a b ≡ lt → compare_ℤ b c ≡ lt → compare_ℤ a c ≡ lt
compare_ℤ-lt_trans a b c p q = ground arith

pub compare_ℤ-IsTotal : IsTotal compare_ℤ
compare_ℤ-IsTotal = record {
  same = λ a. ground arith;
  eq_of = λ a b h. ground arith;
  flipped = λ a b. ground arith;
  lt_trans = compare_ℤ-lt_trans;
}

instance unfoldable pub int_ord : Ord ℤ
int_ord = record { cmp = compare_ℤ; total = compare_ℤ-IsTotal }

abbrev pub then : Ordering → Ordering → Ordering
then eq second = second
then lt _ = lt
then gt _ = gt

-- Tuples and slices compare lexicographically.
module _ {ℓ κ} {A : Type ℓ} {B : Type κ} ⦃a : Ord A⦄ ⦃b : Ord B⦄ where
  abbrev pub compare_pair : A × B → A × B → Ordering
  compare_pair x y = then (a.cmp x.0 y.0) (b.cmp x.1 y.1)

  pair-eq_of : (x y : A × B) → compare_pair x y ≡ eq → x ≡ y
  pair-eq_of x y = ground (arith, a.eq_of x.0 y.0, b.eq_of x.1 y.1)

  pair-flipped : (x y : A × B) → compare_pair y x ≡ flip (compare_pair x y)
  pair-flipped x y = ground (arith, a.flipped x.0 y.0, b.flipped x.1 y.1)

  pair-lt_trans :
      (x y z : A × B) → compare_pair x y ≡ lt → compare_pair y z ≡ lt → compare_pair x z ≡ lt
  pair-lt_trans x y z =
      ground
        (arith, a.eq_of x.0 y.0, a.eq_of y.0 z.0, a.lt_trans x.0 y.0 z.0, b.lt_trans x.1 y.1 z.1)

  pub compare_pair-IsTotal : IsTotal {K = A × B} compare_pair
  compare_pair-IsTotal = record {
    same = λ x. simp (a.same, b.same);
    eq_of = pair-eq_of;
    flipped = pair-flipped;
    lt_trans = pair-lt_trans;
  }

  instance unfoldable pub pair_ord : Ord (A × B)
  pair_ord = record { cmp = compare_pair; total = compare_pair-IsTotal }

module _ {ℓ} {A : Type ℓ} ⦃a : Ord A⦄ where
  unfoldable pub compare_list : List A → List A → Ordering
  compare_list [] [] = eq
  compare_list [] (y ∷ ys) = lt
  compare_list (x ∷ xs) [] = gt
  compare_list (x ∷ xs) (y ∷ ys) = then (a.cmp x y) (compare_list xs ys)

  list-same : (x : List A) → compare_list x x ≡ eq
  unfolding compare_list
  list-same [] = refl
  list-same (x ∷ xs) = rw (a.same x) (list-same xs)

  list-eq_of : (x y : List A) → compare_list x y ≡ eq → x ≡ y
  unfolding compare_list
  list-eq_of [] [] h = refl
  list-eq_of [] (y ∷ ys) h = cc
  list-eq_of (x ∷ xs) [] h = cc
  list-eq_of (x ∷ xs) (y ∷ ys) h = ground (arith, a.eq_of x y, list-eq_of xs ys)

  list-flipped : (x y : List A) → compare_list y x ≡ flip (compare_list x y)
  unfolding compare_list
  list-flipped [] [] = refl
  list-flipped [] (y ∷ ys) = refl
  list-flipped (x ∷ xs) [] = refl
  list-flipped (x ∷ xs) (y ∷ ys) = ground (arith, a.flipped x y, list-flipped xs ys)

  list-lt_trans :
      (x y z : List A) → compare_list x y ≡ lt → compare_list y z ≡ lt → compare_list x z ≡ lt
  unfolding compare_list
  list-lt_trans [] [] z p q = cc
  list-lt_trans [] (y ∷ ys) [] p q = cc
  list-lt_trans [] (y ∷ ys) (z ∷ zs) p q = refl
  list-lt_trans (x ∷ xs) [] z p q = cc
  list-lt_trans (x ∷ xs) (y ∷ ys) [] p q = cc
  list-lt_trans (x ∷ xs) (y ∷ ys) (z ∷ zs) p q =
      ground (arith, a.eq_of x y, a.eq_of y z, a.lt_trans x y z, list-lt_trans xs ys zs)

  pub compare_list-IsTotal : IsTotal (compare_list)
  compare_list-IsTotal = record {
    same = list-same;
    eq_of = list-eq_of;
    flipped = list-flipped;
    lt_trans = list-lt_trans;
  }

  instance unfoldable pub list_ord : Ord (List A)
  list_ord = record { cmp = compare_list; total = compare_list-IsTotal }

  -- `Option`: `None` is the least value.
  abbrev pub compare_option : Option A → Option A → Ordering
  compare_option none none = eq
  compare_option none (some y) = lt
  compare_option (some x) none = gt
  compare_option (some x) (some y) = a.cmp x y

  option-lt_trans :
      (x y z : Option A)
      → compare_option x y ≡ lt
      → compare_option y z ≡ lt
      → compare_option x z ≡ lt
  option-lt_trans none (some y) (some z) p q = refl
  option-lt_trans (some x) (some y) (some z) p q = a.lt_trans x y z p q
  option-lt_trans none none z p q = cc
  option-lt_trans (some x) none z p q = cc
  option-lt_trans x (some y) none p q = cc

  option-same : (x : Option A) → compare_option x x ≡ eq
  option-same none = refl
  option-same (some x) = a.same x

  option-flipped : (x y : Option A) → compare_option y x ≡ flip (compare_option x y)
  option-flipped none none = refl
  option-flipped none (some y) = refl
  option-flipped (some x) none = refl
  option-flipped (some x) (some y) = a.flipped x y

  option-eq_of : (x y : Option A) → compare_option x y ≡ eq → x ≡ y
  option-eq_of none none e = refl
  option-eq_of none (some y) e = cc
  option-eq_of (some x) none e = cc
  option-eq_of (some x) (some y) e = ap some (a.eq_of x y e)

  pub compare_option-IsTotal : IsTotal compare_option
  compare_option-IsTotal = record {
    same = option-same;
    eq_of = option-eq_of;
    flipped = option-flipped;
    lt_trans = option-lt_trans;
  }

  instance unfoldable pub option_ord : Ord (Option A)
  option_ord = record { cmp = compare_option; total = compare_option-IsTotal }

-- Rust's `Reverse`.
pub record Reverse {ℓ} (K : Type ℓ) : Type ℓ where
  pub value : K

module _ {ℓ} {A : Type ℓ} ⦃a : Ord A⦄ where
  abbrev pub compare_reverse : Reverse A → Reverse A → Ordering
  compare_reverse x y = a.cmp y.value x.value

  reverse-eq_of : (x y : Reverse A) → compare_reverse x y ≡ eq → x ≡ y
  reverse-eq_of x y h = ap (λ v. record { value = v }) (sym (a.eq_of y.value x.value h))

  pub compare_reverse-IsTotal : IsTotal {K = Reverse A} compare_reverse
  compare_reverse-IsTotal = record {
    same = λ x. a.same x.value;
    eq_of = reverse-eq_of;
    flipped = λ x y. a.flipped y.value x.value;
    lt_trans = λ x y z h k. a.lt_trans z.value y.value x.value k h;
  }

  instance unfoldable pub reverse_ord : Ord (Reverse A)
  reverse_ord = record { cmp = compare_reverse; total = compare_reverse-IsTotal }
