-- ===== src/Dedup/Markers.antt =====
-- src/core/dedup.rs: `has_conflict_marker`. The stem comes from `Path::file_stem`,
-- `to_string_lossy` and `to_lowercase`, which are the caller's parameter.
use backupsage.Base.{
  ℕ, ◌==◌, leb, Bool, true, false, not, ◌&&◌, ◌||◌, Option, none, some, List, [], ◌∷◌, all, length,
  if◌then◌else◌, ◌≡◌, refl,
}

-- Code points.
abbrev pub Chars : Type 0
Chars = List ℕ

abbrev starts_with : Chars → Chars → Bool
starts_with [] text = true
starts_with (c ∷ cs) [] = false
starts_with (c ∷ cs) (d ∷ text) = c == d && starts_with cs text

-- `str::contains`
unfoldable contains : Chars → Chars → Bool
contains text [] = starts_with text []
contains text (d ∷ rest) = starts_with text (d ∷ rest) || contains text rest

abbrev is_ascii_digit : ℕ → Bool
is_ascii_digit c = leb b'0' c && leb c b'9'

-- The characters after the last `c`, where there is one: `rfind`, and the slice after it.
unfoldable after_last : ℕ → Chars → Option Chars
after_last c [] = none
after_last c (d ∷ rest) = later (after_last c rest)
  where
    later : Option Chars → Option Chars
    later (some tail) = some tail
    later none = if d == c then some rest else none

abbrev without_last : Chars → Chars
without_last [] = []
without_last (c ∷ []) = []
without_last (c ∷ d ∷ rest) = c ∷ without_last (d ∷ rest)

abbrev ends_with : ℕ → Chars → Bool
ends_with c [] = false
ends_with c (d ∷ []) = d == c
ends_with c (d ∷ e ∷ rest) = ends_with c (e ∷ rest)

-- The test on the digits between the last `(` and the final `)`.
abbrev copy_number : Option Chars → Bool
copy_number none = false
copy_number (some tail) = all is_ascii_digit (without_last tail)

abbrev suffix_number : Option Chars → Bool
suffix_number none = false
suffix_number (some tail) =
    not (length tail == 0) && (leb (length tail) 3 && all is_ascii_digit tail)

-- `has_conflict_marker`, on the lower-case stem.
unfoldable pub has_conflict_marker : Chars → Bool
unfolding contains after_last
has_conflict_marker stem =
    contains (b'c' ∷ b'o' ∷ b'p' ∷ b'y' ∷ []) stem
    || (ends_with b')' stem && copy_number (after_last b'(' stem)
        || suffix_number (after_last b'_' stem))

img_copy : has_conflict_marker (b'i' ∷ b'(' ∷ b'1' ∷ b')' ∷ []) ≡ true
unfolding has_conflict_marker
img_copy = refl
