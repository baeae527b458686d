-- ===== src/Phash/Bands.antt =====
-- The recall of the four 16-bit bands: hashes within distance 3 agree in one of them.
use native.Mathlib.Nat.{div-div-eq-div-mul}
use mathlib.Core.Path.{ap₂}
use backupsage.Base.{
  ℕ, zero, suc, ◌+◌, ◌*◌, ◌/◌, ◌%◌, ◌^◌, ◌≤◌, ◌≡◌, refl, sym, ap, ◌∙◌, ◌⊎◌, inl, inr, bit_xor,
  arith,
}
use backupsage.Phash.{ones, count_ones, hamming}
use backupsage.Phash.Digits.{bit_xor_comm, bit_xor_half, div-two_pow, mod-two_pow}

div-one : (x : ℕ) → x ≡ x / 2 ^ 0
div-one x = omega arith

unshifted : (m x : ℕ) → ones m x ≡ 0 + ones m (x / 2 ^ 0)
unshifted m x = ap (ones m) (div-one x) ∙ plus (ones m (x / 2 ^ 0))
  where
    plus : (n : ℕ) → n ≡ 0 + n
    plus n = omega arith

ones-split : (n m k x : ℕ) → n + m ≡ k → ones k x ≡ ones n x + ones m (x / 2 ^ n)
unfolding ones
ones-split zero m k x e =
    let same : m ≡ k = omega arith in ap (λ (j : ℕ). ones j x) (sym same) ∙ unshifted m x
ones-split (suc n) m zero x e = absurd (omega arith)
ones-split (suc n) m (suc k) x e =
    omega (arith, ones-split n m k (x / 2) (omega arith), ap (ones m) (div-two_pow n x))

bit_xor-div : (n a b : ℕ) → bit_xor a b / 2 ^ n ≡ bit_xor (a / 2 ^ n) (b / 2 ^ n)
bit_xor-div zero a b = sym (div-one (bit_xor a b)) ∙ ap₂ bit_xor (div-one a) (div-one b)
bit_xor-div (suc n) a b =
    div-two_pow n (bit_xor a b)
    ∙ ap (λ (t : ℕ). t / 2 ^ n) (bit_xor_half a b).0
    ∙ bit_xor-div n (a / 2) (b / 2)
    ∙ ap₂ bit_xor (sym (div-two_pow n a)) (sym (div-two_pow n b))

-- Without ones among the lowest digits of the exclusive or, the lowest digits agree.
agree_of_no_ones : (n a b : ℕ) → ones n (bit_xor a b) ≡ 0 → a % 2 ^ n ≡ b % 2 ^ n
unfolding ones
agree_of_no_ones zero a b e = omega arith
agree_of_no_ones (suc n) a b e =
    let (half, low) = bit_xor_half a b in
    let rest = agree_of_no_ones n (a / 2) (b / 2) (omega (arith, ap (ones n) half)) in
    mod-two_pow n a ∙ omega (arith, rest, low (omega arith)) ∙ sym (mod-two_pow n b)

-- A 16-bit band of a hash, from digit `k` on.
abbrev pub digits_from : ℕ → ℕ → ℕ
digits_from k h = h / 2 ^ k % 2 ^ 16

band_agrees : (k a b : ℕ) → ones 16 (bit_xor a b / 2 ^ k) ≡ 0 → digits_from k a ≡ digits_from k b
band_agrees k a b e =
    agree_of_no_ones 16 (a / 2 ^ k) (b / 2 ^ k) (ap (ones 16) (sym (bit_xor-div k a b)) ∙ e)

next_band :
    (x s t m k : ℕ)
    → 16 + m ≡ k
    → 2 ^ s * 2 ^ 16 ≡ 2 ^ t
    → ones k (x / 2 ^ s) ≡ ones 16 (x / 2 ^ s) + ones m (x / 2 ^ t)
next_band x s t m k e f =
    ones-split 16 m k (x / 2 ^ s) e
    ∙ ap (λ (y : ℕ). ones 16 (x / 2 ^ s) + ones m y)
        (div-div-eq-div-mul x (2 ^ s) (2 ^ 16) ∙ ap (λ (t : ℕ). x / t) f)

-- The count of 64 digits is that of the four bands.
abbrev band_ones : ℕ → ℕ → ℕ
band_ones k x = ones 16 (x / 2 ^ k)

total :
    {h a p b q c d : ℕ}
    → h ≡ a + p
    → p ≡ b + q
    → q ≡ c + d
    → h ≤ 3
    → (a ≡ 0) ⊎ (b ≡ 0) ⊎ (c ≡ 0) ⊎ (d ≡ 0)
total {a = zero} e f g h = inl refl
total {a = suc a} {b = zero} e f g h = inr (inl refl)
total {a = suc a} {b = suc b} {c = zero} e f g h = inr (inr (inl refl))
total {a = suc a} {b = suc b} {c = suc c} {d = zero} e f g h = inr (inr (inr refl))
total {a = suc a} {b = suc b} {c = suc c} {d = suc d} e f g h = absurd (omega arith)

some_band_empty :
    (x : ℕ)
    → ones 64 x ≤ 3
    → (band_ones 0 x ≡ 0) ⊎ (band_ones 16 x ≡ 0) ⊎ (band_ones 32 x ≡ 0) ⊎ (band_ones 48 x ≡ 0)
some_band_empty x h =
    total (ap (ones 64) (div-one x) ∙ next_band x 0 16 48 64 refl refl)
      (next_band x 16 32 32 48 refl refl) (next_band x 32 48 16 32 refl refl) h

-- Hashes within distance 3 agree in one of the four bands.
pub band_recall :
    (a b : ℕ)
    → hamming a b ≤ 3
    → (digits_from 0 a ≡ digits_from 0 b)
      ⊎ (digits_from 16 a ≡ digits_from 16 b)
      ⊎ (digits_from 32 a ≡ digits_from 32 b)
      ⊎ (digits_from 48 a ≡ digits_from 48 b)
unfolding hamming
band_recall a b h = elim (some_band_empty (bit_xor a b) h) [
  | inl e ↦ inl (band_agrees 0 a b e)
  | inr (inl e) ↦ inr (inl (band_agrees 16 a b e))
  | inr (inr (inl e)) ↦ inr (inr (inl (band_agrees 32 a b e)))
  | inr (inr (inr e)) ↦ inr (inr (inr (band_agrees 48 a b e)))
]

pub hamming_comm : (a b : ℕ) → hamming a b ≡ hamming b a
unfolding hamming
hamming_comm a b = ap count_ones (bit_xor_comm a b)
