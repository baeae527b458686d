-- ===== src/Textsafe/Examples.antt =====
-- A text with an escape sequence in it.
use backupsage.Base.{◌≡◌, ◌↔◌, ℕ, false, List, [], ◌∷◌, any, length}
use backupsage.Textsafe.{is_risky, sanitize, sanitize_safe, sanitize_same_iff}

abbrev colour : List ℕ
colour = 27 ∷ b'[' ∷ b'3' ∷ b'1' ∷ b'm' ∷ b'a' ∷ 127 ∷ 155 ∷ []

sanitize_safe_example : (any is_risky (sanitize colour) ≡ false) × (length (sanitize colour) ≡ 8)
sanitize_safe_example = sanitize_safe colour

sanitize_same_iff_example : (sanitize colour ≡ colour) ↔ (any is_risky colour ≡ false)
sanitize_same_iff_example = sanitize_same_iff colour
