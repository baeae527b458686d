-- ===== src/Textsafe.antt =====
-- src/textsafe.rs: the sanitizer of text that is printed to a terminal. A `char` is its code point.
use backupsage.Base.{
  ◌≡◌, refl, ap, subst, ◌↔◌, arith, ℕ, ◌+◌, ◌==◌, leb, Bool, true, false, not, ◌&&◌, ◌||◌, List, [],
  ◌∷◌, map, any, length, length-map, if◌then◌else◌, Bool-cases, inl, inr,
}
mod Examples

-- A control character from U+0000 to U+001F.
abbrev is_c0 : ℕ → Bool
is_c0 c = leb c 31

abbrev is_delete : ℕ → Bool
is_delete c = c == 127

-- A control character from U+0080 to U+009F.
abbrev is_c1 : ℕ → Bool
is_c1 c = leb 128 c && leb c 159

unfoldable pub is_risky : ℕ → Bool
is_risky c = leb c 31 || leb 127 c && leb c 159

-- The first controls and DEL have pictures, from U+2400 and at U+2421; the others become U+FFFD.
unfoldable pub map_char : ℕ → ℕ
map_char c =
    if is_c0 c then 9216 + c else if is_delete c then 9249 else if is_c1 c then 65533 else c

unfoldable pub sanitize : List ℕ → List ℕ
sanitize s = if not (any is_risky s) then s else map map_char s

map_char_safe : (c : ℕ) → is_risky (map_char c) ≡ false
unfolding is_risky map_char
map_char_safe c = ground arith

any-map_char : (s : List ℕ) → any is_risky (map map_char s) ≡ false
any-map_char [] = refl
any-map_char (c ∷ s) = rw (map_char_safe c, any-map_char s) refl

-- Sanitized text has no control character, and as many characters as before.
pub sanitize_safe :
    (s : List ℕ) → (any is_risky (sanitize s) ≡ false) × (length (sanitize s) ≡ length s)
unfolding sanitize
sanitize_safe s = elim (Bool-cases (any is_risky s)) [
  | inl e ↦ rw e (any-map_char s, length-map map_char s)
  | inr e ↦ rw e (e, refl)
]

-- Sanitizing leaves a text as it is exactly when there is no control character in it.
pub sanitize_same_iff : (s : List ℕ) → (sanitize s ≡ s) ↔ (any is_risky s ≡ false)
unfolding sanitize
sanitize_same_iff s =
    (λ same. subst (λ t. any is_risky t ≡ false) same (sanitize_safe s).0, λ h. rw h refl)
