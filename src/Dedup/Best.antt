-- ===== src/Dedup/Best.antt =====
-- src/core/dedup.rs: the maximum that `pick_keep` takes by the key of the group's kind.
use text.Mathlib.Text.{◌==◌ as str_eq}
use backupsage.Base.{
  ◌≡◌, sym, ap, subst, arith, String, Bool, true, false, List, [], ◌∷◌, All, if◌then◌else◌,
  Bool-cases, inl, inr,
}
use backupsage.Base.Order.{Ord, lessb, nat_ord, int_ord, pair_ord, reverse_ord}
use backupsage.Base.Sort.{not-lessb_trans}
use backupsage.Coverage.{Bytes}
use backupsage.Dedup.Markers.{Chars}
use backupsage.Dedup.Keep.{Indexed, max_from, near_key, exact_key, best_of}

module _ {A : Type 0} {K : Type 0} ⦃o : Ord K⦄ (key : A → K) where
  max_from-All :
      (P : A → Type 0) (best : A) (xs : List A) → P best → All P xs → P (max_from key best xs)
  unfolding max_from
  max_from-All P best [] p h = p
  max_from-All P best (x ∷ xs) p h = elim (Bool-cases (lessb (key x) (key best))) [
    | inl y ↦ rw y (max_from-All P best xs p h.1)
    | inr n ↦ rw n (max_from-All P x xs h.0 h.1)
  ]

  lessb_self : (x : A) → lessb (key x) (key x) ≡ false
  lessb_self x = ground (arith, o.same (key x))

  lessb_asym : (x y : A) → lessb (key x) (key y) ≡ true → lessb (key y) (key x) ≡ false
  lessb_asym x y h = ground (arith, o.flipped (key x) (key y))

  -- Nothing beats the maximum.
  max_from-top :
      (best : A) (xs : List A)
      → All (λ y. lessb (key (max_from key best xs)) (key y) ≡ false) (best ∷ xs)
  unfolding max_from
  max_from-top best [] = (lessb_self best, tt)
  max_from-top best (x ∷ xs) = elim (Bool-cases (lessb (key x) (key best))) [
    | inl y ↦
        let top = max_from-top best xs in
        let same : max_from key best (x ∷ xs) ≡ max_from key best xs =
          ap (λ b. max_from key (if b then best else x) xs) y in
        subst (λ m. All (λ z. lessb (key m) (key z) ≡ false) (best ∷ x ∷ xs)) (sym same)
          (
            top.0,
            (not-lessb_trans key x best (max_from key best xs) (lessb_asym x best y) top.0, top.1),
          )
    | inr n ↦
        let top = max_from-top x xs in
        let same : max_from key best (x ∷ xs) ≡ max_from key x xs =
          ap (λ b. max_from key (if b then best else x) xs) n in
        subst (λ m. All (λ z. lessb (key m) (key z) ≡ false) (best ∷ x ∷ xs)) (sym same)
          (not-lessb_trans key best x (max_from key x xs) n top.0, top)
  ]

-- Whether the order of the group's kind puts the second member above the first.
abbrev pub is_beaten : (Bytes → Chars) → String → Indexed → Indexed → Bool
is_beaten stem_of kind a b =
    if str_eq kind "near"
    then lessb (near_key a) (near_key b)
    else lessb (exact_key stem_of a) (exact_key stem_of b)

module _ (stem_of : Bytes → Chars) (kind : String) where
  pub best_of-All :
      (P : Indexed → Type 0) (e : Indexed) (es : List Indexed)
      → All P (e ∷ es)
      → P (best_of stem_of kind e es)
  best_of-All P e es h = elim (Bool-cases (str_eq kind "near")) [
    | inl y ↦ rw y (max_from-All near_key P e es h.0 h.1)
    | inr n ↦ rw n (max_from-All (exact_key stem_of) P e es h.0 h.1)
  ]

  top_by :
      (near : Bool) (e : Indexed) (es : List Indexed)
      → let best = if near then max_from near_key e es else max_from (exact_key stem_of) e es in
        All
          (λ x.
            (if near
              then lessb (near_key best) (near_key x)
              else lessb (exact_key stem_of best) (exact_key stem_of x))
            ≡ false)
          (e ∷ es)
  top_by true e es = max_from-top near_key e es
  top_by false e es = max_from-top (exact_key stem_of) e es

  pub best_of-top :
      (e : Indexed) (es : List Indexed)
      → All (λ x. is_beaten stem_of kind (best_of stem_of kind e es) x ≡ false) (e ∷ es)
  best_of-top = top_by (str_eq kind "near")
