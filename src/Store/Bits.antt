-- ===== src/Store/Bits.antt =====
-- src/core/store.rs: two flags tested at once.
use Prim.Native.Nat.{digits, min, bit_and-bitwise}
use backupsage.Base.{◌≡◌, refl, ◌∙◌, arith, ℕ, zero, suc, ◌+◌, ◌*◌, ◌/◌, ◌%◌, ◌≤◌, bit_and, ◌||◌}
use backupsage.Store.Flags

abbrev min_digits : ℕ → ℕ → ℕ → ℕ
min_digits n a b = digits (λ _. 0) min n a b

-- Any number of rounds that the first number does not exceed gives the same digits.
enough_rounds : (k l x y : ℕ) → x ≤ k → x ≤ l → min_digits k x y ≡ min_digits l x y
enough_rounds zero zero x y s t = refl
enough_rounds (suc k) zero zero y s t = refl
enough_rounds zero (suc l) zero y s t = refl
enough_rounds (suc k) (suc l) zero y s t = refl
enough_rounds (suc k) zero (suc x) y s t = absurd (omega (arith, t))
enough_rounds zero (suc l) (suc x) y s t = absurd (omega (arith, s))
enough_rounds (suc k) (suc l) (suc x) y s t =
    let later = enough_rounds k l (suc x / 2) (y / 2) (omega (arith, s)) (omega (arith, t)) in
    omega (arith, later)

min_digits_zero : (n a : ℕ) → min_digits n a 0 ≡ 0
min_digits_zero zero a = refl
min_digits_zero (suc n) zero = refl
min_digits_zero (suc n) (suc a) = omega (arith, min_digits_zero n (suc a / 2))

bit_and_zero : (a : ℕ) → bit_and a 0 ≡ 0
bit_and_zero a = bit_and-bitwise a 0 ∙ min_digits_zero a a

bit_and_step : (x y : ℕ) → bit_and x y ≡ bit_and (x / 2) (y / 2) * 2 + min (x % 2) (y % 2)
bit_and_step zero y = omega (arith, bit_and-bitwise (0 / 2) (y / 2), bit_and-bitwise 0 y)
bit_and_step (suc x) y =
    let rounds = enough_rounds (suc x / 2) x (suc x / 2) (y / 2) (omega arith) (omega arith) in
    omega (arith, rounds, bit_and-bitwise (suc x / 2) (y / 2), bit_and-bitwise (suc x) y)

-- A mask of the two bits of value 4 and 64 is met when one of them is.
pub has_either : (f : ℕ) → Flags.has f 68 ≡ (Flags.has f 4 || Flags.has f 64)
unfolding Flags.has
has_either f =
    let third = f / 2 / 2 / 2 in
    let top = third / 2 / 2 / 2 / 2 in
    ground (
      arith,
      bit_and_step f 68,
      bit_and_step (f / 2) 34,
      bit_and_step (f / 2 / 2) 17,
      bit_and_step third 8,
      bit_and_step (third / 2) 4,
      bit_and_step (third / 2 / 2) 2,
      bit_and_step (third / 2 / 2 / 2) 1,
      bit_and_step f 4,
      bit_and_step (f / 2) 2,
      bit_and_step (f / 2 / 2) 1,
      bit_and_step f 64,
      bit_and_step (f / 2) 32,
      bit_and_step (f / 2 / 2) 16,
      bit_and_zero third,
      bit_and_zero top,
    )
