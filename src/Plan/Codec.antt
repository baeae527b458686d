-- ===== src/Plan/Codec.antt =====
-- src/core/plan.rs: hex strings and joined paths lose nothing.
use backupsage.Base.{
  ◌≡◌, refl, subst, arith, ℕ, ◌+◌, ◌*◌, ◌/◌, ◌%◌, ◌<◌, true, not, ◌||◌, [], ◌∷◌, length, all, All,
  ok, Bool-cases, inl, inr,
}
use backupsage.Coverage.{Bytes}
use backupsage.Diff.{to_hex, hex_digit}
use backupsage.Plan.Hex.{is_hex_digit, hex_value, decode_pairs, is_even, unhex}

abbrev pub IsByte : ℕ → Type 0
IsByte b = b < 256

hex_digit_lem :
    (d : ℕ) → d < 16 → (hex_value (hex_digit d) ≡ d) × (is_hex_digit (hex_digit d) ≡ true)
unfolding hex_digit hex_value is_hex_digit
hex_digit_lem d h = ground arith

hex_value_lem : (c : ℕ) → is_hex_digit c ≡ true → (hex_digit (hex_value c) ≡ c) × (hex_value c < 16)
unfolding hex_digit hex_value is_hex_digit
hex_value_lem c h = ground arith

decode-to_hex : (bs : Bytes) → All IsByte bs → decode_pairs (to_hex bs) ≡ bs
unfolding to_hex decode_pairs
decode-to_hex [] h = refl
decode-to_hex (b ∷ bs) (lt, h) =
    ground (arith, hex_digit_lem (b / 16), hex_digit_lem (b % 16), decode-to_hex bs h)

length-to_hex : (bs : Bytes) → length (to_hex bs) ≡ 2 * length bs
unfolding to_hex
length-to_hex [] = refl
length-to_hex (b ∷ bs) = omega (arith, length-to_hex bs)

all-to_hex : (bs : Bytes) → All IsByte bs → all is_hex_digit (to_hex bs) ≡ true
unfolding to_hex
all-to_hex [] h = refl
all-to_hex (b ∷ bs) (lt, h) =
    ground (arith, hex_digit_lem (b / 16), hex_digit_lem (b % 16), all-to_hex bs h)

-- Bytes, numbers below 256, are read back from the hexadecimal digits that spell them.
pub unhex-to_hex : (bs : Bytes) → All IsByte bs → unhex (to_hex bs) ≡ ok bs
unfolding unhex
unhex-to_hex bs h = ground (arith, length-to_hex bs, all-to_hex bs h, decode-to_hex bs h)

spelled :
    (a b : ℕ) (s bs : Bytes)
    → (hex_digit (hex_value a) ≡ a) × (hex_value a < 16)
    → (hex_digit (hex_value b) ≡ b) × (hex_value b < 16)
    → to_hex bs ≡ s
    → to_hex ((hex_value a * 16 + hex_value b) ∷ bs) ≡ a ∷ b ∷ s
unfolding to_hex
spelled a b s bs (ea, ha) (eb, hb) e =
    let quotient : (hex_value a * 16 + hex_value b) / 16 ≡ hex_value a = omega arith in
    let rest : (hex_value a * 16 + hex_value b) % 16 ≡ hex_value b = omega arith in
    rw (quotient, rest, ea, eb, e)

to_hex-decode :
    (s : Bytes)
    → is_even (length s) ≡ true
    → all is_hex_digit s ≡ true
    → (to_hex (decode_pairs s) ≡ s) × All IsByte (decode_pairs s)
unfolding to_hex decode_pairs
to_hex-decode [] e h = (refl, tt)
to_hex-decode (a ∷ []) e h = ground arith
to_hex-decode (a ∷ b ∷ s) e h =
    let high = hex_value_lem a (ground arith) in
    let low = hex_value_lem b (ground arith) in
    let rest = to_hex-decode s (ground arith) (ground arith) in
    (spelled a b s (decode_pairs s) high low rest.0, (omega (arith, high.1, low.1), rest.1))

-- A hex string that is accepted is the one spelling of its bytes.
pub to_hex-unhex : (s bs : Bytes) → unhex s ≡ ok bs → (to_hex bs ≡ s) × All IsByte bs
unfolding unhex
to_hex-unhex s bs h = elim (Bool-cases (not (is_even (length s)) || not (all is_hex_digit s))) [
  | inl y ↦ ground arith
  | inr n ↦
      let e : decode_pairs s ≡ bs = ground arith in
      subst (λ x. (to_hex x ≡ s) × All IsByte x) e (to_hex-decode s (ground arith) (ground arith))
]
