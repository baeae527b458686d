-- ===== src/Borg/Names.antt =====
-- src/core/borg/operation.rs: an accepted archive name stays one name on the command line.
use backupsage.Base.{◌≡◌, refl, arith, ℕ, ◌==◌, false, [], ◌∷◌, any, ok}
use backupsage.Base.Order.{nat_ord, list_ord}
use backupsage.Borg

no_colon :
    (cs : Borg.Chars)
    → any (Borg.is_one_of (Borg.chars ":/\\{}*?[]")) cs ≡ false
    → any (λ c. c == b':') cs ≡ false
no_colon [] h = refl
no_colon (c ∷ cs) h = ground (arith, h, no_colon cs)

split_whole :
    (sep : ℕ) (cs : Borg.Chars) → any (λ c. c == sep) cs ≡ false → Borg.split sep cs ≡ cs ∷ []
unfolding Borg.split
split_whole sep [] h = refl
split_whole sep (c ∷ cs) h =
    let here : (c == sep) ≡ false = ground (arith, h) in
    rw (split_whole sep cs (ground (arith, h)), here) refl

-- An accepted archive name is the given text, and the argument that names the archive has just
-- three parts at its colons: the fixed locator, nothing, and the name.
pub parse_archive_name-eq-ok :
    (value : Borg.Chars) (a : Borg.ArchiveName)
    → Borg.parse_archive_name value ≡ ok a
    → (a.name ≡ value) × (Borg.split b':' (Borg.located a) ≡ Borg.locator ∷ [] ∷ value ∷ [])
unfolding Borg.parse_archive_name Borg.split
parse_archive_name-eq-ok value a h =
    let same : a.name ≡ value = ground (arith, h) in
    let whole : Borg.split b':' value ≡ value ∷ [] =
      split_whole b':' value (no_colon value (ground (arith, h))) in
    (same, rw (same, whole) refl)
