-- ===== src/Base/Members.antt =====
-- The elements of a list.
use mathlib.Core.Path.{◌≡◌, refl, sym, subst}
use mathlib.Core.Bool.{Bool, true}
use mathlib.Core.List.{List, [], ◌∷◌, Memᴰ}
use mathlib.Core.Logic.{inl, inr}
use backupsage.Base.Tests.{Bool-cases}
use backupsage.Base.Lists.{All, All-imp, filter}

module _ {ℓ} {A : Type ℓ} where
  pub each_in : (xs : List A) → All (λ x. Memᴰ x xs) xs
  each_in [] = tt
  each_in (x ∷ xs) = (Memᴰ.head refl, All-imp (λ y m. Memᴰ.tail m) xs (each_in xs))

  -- What holds of all elements holds of one.
  pub All-at {κ} : (P : A → Type κ) (xs : List A) (x : A) → All P xs → Memᴰ x xs → P x
  All-at P [] x h m = elim m [ ]
  All-at P (y ∷ xs) x (p, h) (Memᴰ.head e) = subst P (sym e) p
  All-at P (y ∷ xs) x (p, h) (Memᴰ.tail m) = All-at P xs x h m

  pub All-filter {κ} :
      (P : A → Type κ) (test : A → Bool) (xs : List A) → All P xs → All P (filter test xs)
  All-filter P test [] h = tt
  All-filter P test (x ∷ xs) (p, h) = elim (Bool-cases (test x)) [
    | inl y ↦ rw y (p, All-filter P test xs h)
    | inr n ↦ rw n (All-filter P test xs h)
  ]

  pub filter-All : (test : A → Bool) (xs : List A) → All (λ x. test x ≡ true) (filter test xs)
  filter-All test [] = tt
  filter-All test (x ∷ xs) = elim (Bool-cases (test x)) [
    | inl y ↦ rw y (y, filter-All test xs)
    | inr n ↦ rw n (filter-All test xs)
  ]

  pub in_filter :
      (test : A → Bool) (xs : List A) (x : A) → Memᴰ x xs → test x ≡ true → Memᴰ x (filter test xs)
  in_filter test [] x m h = elim m [ ]
  in_filter test (y ∷ xs) x (Memᴰ.head e) h = rw (subst (λ z. test z ≡ true) e h) (Memᴰ.head e)
  in_filter test (y ∷ xs) x (Memᴰ.tail m) h = elim (Bool-cases (test y)) [
    | inl t ↦ rw t (Memᴰ.tail (in_filter test xs x m h))
    | inr n ↦ rw n (in_filter test xs x m h)
  ]
