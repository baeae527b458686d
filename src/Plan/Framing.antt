-- ===== src/Plan/Framing.antt =====
-- src/core/plan.rs: what the framed preimage of a derived id lets one read off.
use backupsage.Base.{
  ◌≡◌, refl, sym, ap, ◌∙◌, arith, ℕ, zero, suc, ◌+◌, ◌*◌, ◌/◌, ◌^◌, ◌<◌, List, [], ◌∷◌, ◌++◌,
  length, length-append, All, ok, >>=-eq-ok, ok-injective, traverse,
}
use backupsage.Coverage.{Bytes}
use backupsage.Diff.{to_hex}
use backupsage.Plan.Types.{Op}
use backupsage.Plan.Hex.{unhex}
use backupsage.Plan.Ids.{le_bytes, le8, framed, tag, trailer}
use backupsage.Plan.Codec.{to_hex-unhex}

abbrev pub le_value : Bytes → ℕ
le_value [] = 0
le_value (b ∷ bs) = b + 256 * le_value bs

abbrev pub capacity : ℕ → ℕ
capacity zero = 1
capacity (suc k) = 256 * capacity k

pub value-le_bytes : (k n : ℕ) → n < capacity k → le_value (le_bytes k n) ≡ n
unfolding le_bytes
value-le_bytes zero n h = omega arith
value-le_bytes (suc k) n h = omega (arith, value-le_bytes k (n / 256) (omega arith))

length-le_bytes : (k n : ℕ) → length (le_bytes k n) ≡ k
unfolding le_bytes
length-le_bytes zero n = refl
length-le_bytes (suc k) n = ap suc (length-le_bytes k (n / 256))

pub le8_injective : (m n : ℕ) → m < 2 ^ 64 → n < 2 ^ 64 → le8 m ≡ le8 n → m ≡ n
unfolding le8
le8_injective m n p q e = sym (value-le_bytes 8 m p) ∙ ap le_value e ∙ value-le_bytes 8 n q

module _ {ℓ} {A : Type ℓ} where
  pub front_equal : (x y r s : List A) → length x ≡ length y → x ++ r ≡ y ++ s → (x ≡ y) × (r ≡ s)
  front_equal [] [] r s h e = (refl, e)
  front_equal [] (b ∷ y) r s h e = absurd (omega arith)
  front_equal (a ∷ x) [] r s h e = absurd (omega arith)
  front_equal (a ∷ x) (b ∷ y) r s h e =
      let (p, q) = front_equal x y r s (omega arith) (cc) in
      let same : a ≡ b = cc in (λ i. same i ∷ p i, q)

  pub back_equal : (x y r s : List A) → length r ≡ length s → x ++ r ≡ y ++ s → (x ≡ y) × (r ≡ s)
  back_equal x y r s h e =
      front_equal x y r s (omega (arith, ap length e, length-append x r, length-append y s)) e

-- Short enough for a length in 64 bits.
abbrev pub IsShort : Bytes → Type 0
IsShort e = length e < 2 ^ 64

length-le8 : (n : ℕ) → length (le8 n) ≡ 8
unfolding le8
length-le8 n = length-le_bytes 8 n

empty_frame : (n : ℕ) (r : Bytes) → [] ≡ le8 n ++ r → ⊥
empty_frame n r e = omega (arith, ap length e, length-append (le8 n) r, length-le8 n)

-- The list of the elements can be read off the frame.
pub framed_injective :
    (es es' : List Bytes) → All IsShort es → All IsShort es' → framed es ≡ framed es' → es ≡ es'
unfolding framed
framed_injective [] [] h k e = refl
framed_injective [] (x ∷ xs) h k e = absurd (empty_frame (length x) (x ++ framed xs) e)
framed_injective (x ∷ xs) [] h k e = absurd (empty_frame (length x) (x ++ framed xs) (sym e))
framed_injective (x ∷ xs) (y ∷ ys) (h, hs) (k, ks) e =
    let (n, rest) =
      front_equal (le8 (length x)) (le8 (length y)) _ _
        (length-le8 (length x) ∙ sym (length-le8 (length y))) e in
    let lengths : length x ≡ length y = le8_injective (length x) (length y) h k n in
    let (heads, tails) = front_equal x y (framed xs) (framed ys) lengths rest in
    let more = framed_injective xs ys hs ks tails in λ i. heads i ∷ more i

some_apart : (q : Bytes) (qs : List Bytes) → traverse unhex (q ∷ qs) ≡ ok [] → ⊥
unfolding traverse
some_apart q qs k =
    let (y, e, k₁) = >>=-eq-ok (unhex q) _ k in
    let (ys, f, k₂) = >>=-eq-ok (traverse unhex qs) _ k₁ in
    omega (arith, ap length (ok-injective k₂))

pub unhex_all-injective :
    (ps qs : List Bytes) (bs : List Bytes)
    → traverse unhex ps ≡ ok bs
    → traverse unhex qs ≡ ok bs
    → ps ≡ qs
unfolding traverse
unhex_all-injective [] [] bs h k = refl
unhex_all-injective [] (q ∷ qs) bs h k = absurd (some_apart q qs (k ∙ sym h))
unhex_all-injective (p ∷ ps) [] bs h k = absurd (some_apart p ps (h ∙ sym k))
unhex_all-injective (p ∷ ps) (q ∷ qs) bs h k =
    let (x, e, h₁) = >>=-eq-ok (unhex p) _ h in
    let (xs, f, h₂) = >>=-eq-ok (traverse unhex ps) _ h₁ in
    let (y, e', k₁) = >>=-eq-ok (unhex q) _ k in
    let (ys, f', k₂) = >>=-eq-ok (traverse unhex qs) _ k₁ in
    let both : ◌≡◌ {A = List Bytes} (x ∷ xs) (y ∷ ys) = ok-injective h₂ ∙ sym (ok-injective k₂) in
    let heads : x ≡ y = cc both in
    let tails : xs ≡ ys = cc both in
    let one : p ≡ q = sym (to_hex-unhex p x e).0 ∙ ap to_hex heads ∙ (to_hex-unhex q y e').0 in
    let more = unhex_all-injective ps qs ys (f ∙ ap ok tails) f' in λ i. one i ∷ more i

pub length-trailer : (op op' : Op) → tag op ≡ tag op' → length (trailer op) ≡ length (trailer op')
unfolding tag trailer
length-trailer op op' h = ground arith
