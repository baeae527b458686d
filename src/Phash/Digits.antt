-- ===== src/Phash/Digits.antt =====
-- The exclusive or of two numbers, digit by digit.
use Prim.Native.Nat.{digits, differ, bit_xor-bitwise}
use native.Mathlib.Nat.{
  pow-succ', div-div-eq-div-mul, add-mul-mod_self_left, mod-eq_of_lt, mod-lt, div-add-mod,
}
use backupsage.Base.{
  ◌<◌, ◌^◌, ap, sym, ◌∙◌, ℕ, zero, suc, ◌+◌, ◌*◌, ◌/◌, ◌%◌, ◌≤◌, ◌≡◌, refl, bit_xor, arith,
}

abbrev xor_digits : ℕ → ℕ → ℕ → ℕ
xor_digits n a b = digits (λ b. b) differ n a b

xor_digits_fuel : (n m a b : ℕ) → a ≤ n → a ≤ m → xor_digits n a b ≡ xor_digits m a b
xor_digits_fuel zero zero a b p q = refl
xor_digits_fuel zero (suc m) zero b p q = refl
xor_digits_fuel zero (suc m) (suc a) b p q = absurd (omega arith)
xor_digits_fuel (suc n) zero zero b p q = refl
xor_digits_fuel (suc n) zero (suc a) b p q = absurd (omega arith)
xor_digits_fuel (suc n) (suc m) zero b p q = refl
xor_digits_fuel (suc n) (suc m) (suc a) b p q =
    omega (arith, xor_digits_fuel n m (suc a / 2) (b / 2) (omega arith) (omega arith))

digit_differ : (x y : ℕ) → x < 2 → y < 2 → (differ x y < 2) × (differ x y ≡ 0 → x ≡ y)
digit_differ zero y p q = (q, λ e. omega arith)
digit_differ (suc zero) zero p q = (omega arith, λ e. omega arith)
digit_differ (suc zero) (suc zero) p q = (omega arith, λ e. refl)
digit_differ (suc zero) (suc (suc y)) p q = absurd (omega arith)
digit_differ (suc (suc x)) y p q = absurd (omega arith)

pub bit_xor_step : (a b : ℕ) → bit_xor a b ≡ bit_xor (a / 2) (b / 2) * 2 + differ (a % 2) (b % 2)
bit_xor_step zero b = omega (arith, bit_xor-bitwise 0 b, bit_xor-bitwise 0 (b / 2))
bit_xor_step (suc a) b = omega (
  arith,
  bit_xor-bitwise (suc a) b,
  bit_xor-bitwise (suc a / 2) (b / 2),
  xor_digits_fuel a (suc a / 2) (suc a / 2) (b / 2) (omega arith) (omega arith),
)

-- The lowest digit is 0 only where the lowest digits agree; the others are those of the halves.
pub bit_xor_half :
    (a b : ℕ) → (bit_xor a b / 2 ≡ bit_xor (a / 2) (b / 2)) × (bit_xor a b % 2 ≡ 0 → a % 2 ≡ b % 2)
bit_xor_half a b =
    let step = bit_xor_step a b in
    let (small, agree) = digit_differ (a % 2) (b % 2) (omega arith) (omega arith) in
    (omega arith, λ e. agree (omega arith))

-- The quotient and the remainder by a power of two, one digit at a time.
two_pow-pos : (n : ℕ) → 0 < 2 ^ n
two_pow-pos zero = omega arith
two_pow-pos (suc n) = omega (arith, pow-succ' 2 n, two_pow-pos n)

pub div-two_pow : (n x : ℕ) → x / 2 ^ suc n ≡ x / 2 / 2 ^ n
div-two_pow n x = ap (λ (k : ℕ). x / k) (pow-succ' 2 n) ∙ sym (div-div-eq-div-mul x 2 (2 ^ n))

mod_double : (m x : ℕ) → 0 < m → x % (2 * m) ≡ x / 2 % m * 2 + x % 2
mod_double m x h =
    let q = x / 2 in
    let low : q % m < m = mod-lt q h in
    let split : x ≡ (q % m * 2 + x % 2) + 2 * m * (q / m) =
      omega (arith, ap (λ (t : ℕ). t * 2) (div-add-mod q m)) in
    ap (λ (t : ℕ). t % (2 * m)) split
    ∙ add-mul-mod_self_left (q % m * 2 + x % 2) (2 * m) (q / m)
    ∙ mod-eq_of_lt (omega arith)

pub mod-two_pow : (n x : ℕ) → x % 2 ^ suc n ≡ x / 2 % 2 ^ n * 2 + x % 2
mod-two_pow n x = ap (λ (k : ℕ). x % k) (pow-succ' 2 n) ∙ mod_double (2 ^ n) x (two_pow-pos n)

differ_comm : (x y : ℕ) → x < 2 → y < 2 → differ x y ≡ differ y x
differ_comm zero zero p q = refl
differ_comm zero (suc zero) p q = refl
differ_comm (suc zero) zero p q = refl
differ_comm (suc zero) (suc zero) p q = refl
differ_comm (suc (suc x)) y p q = absurd (omega arith)
differ_comm zero (suc (suc y)) p q = absurd (omega arith)
differ_comm (suc zero) (suc (suc y)) p q = absurd (omega arith)

bit_xor_comm_within : (n a b : ℕ) → a + b ≤ n → bit_xor a b ≡ bit_xor b a
bit_xor_comm_within zero zero zero h = refl
bit_xor_comm_within zero (suc a) b h = absurd (omega arith)
bit_xor_comm_within zero zero (suc b) h = absurd (omega arith)
bit_xor_comm_within (suc n) zero zero h = refl
bit_xor_comm_within (suc n) (suc a) b h = omega (
  arith,
  bit_xor_step (suc a) b,
  bit_xor_step b (suc a),
  bit_xor_comm_within n (suc a / 2) (b / 2) (omega arith),
  differ_comm (suc a % 2) (b % 2) (omega arith) (omega arith),
)
bit_xor_comm_within (suc n) zero (suc b) h = omega (
  arith,
  bit_xor_step zero (suc b),
  bit_xor_step (suc b) zero,
  bit_xor_comm_within n (0 / 2) (suc b / 2) (omega arith),
  differ_comm (0 % 2) (suc b % 2) (omega arith) (omega arith),
)

pub bit_xor_comm : (a b : ℕ) → bit_xor a b ≡ bit_xor b a
bit_xor_comm a b = bit_xor_comm_within (a + b) a b (omega arith)
