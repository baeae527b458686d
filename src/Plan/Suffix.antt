-- ===== src/Plan/Suffix.antt =====
-- src/core/plan.rs: the suffix that tells colliding destinations apart.
use backupsage.Base.{
  ℕ, zero, suc, ◌+◌, ◌/◌, ◌%◌, ◌==◌, Option, none, some, List, [], ◌∷◌, ◌++◌, if◌then◌else◌, Result,
  ok, err, ◌>>=◌,
}
use backupsage.Base.Order.{eqb, nat_ord, list_ord}
use backupsage.Coverage.{Bytes}
use backupsage.Diff.{to_hex}
use backupsage.Plan.Types.{Conflict, unsuffixed, suffixed}
use backupsage.Plan.Hex.{PlanError, unhex, dest_has_no_components, suffix_not_found}

-- The part before the last dot, and the part from it on.
unfoldable pub split_last_dot : Bytes → Option (Bytes × Bytes)
split_last_dot [] = none
split_last_dot (c ∷ rest) = elim (split_last_dot rest) [
  | some (stem, ext) ↦ some (c ∷ stem, ext)
  | none ↦ if c == b'.' then some ([], c ∷ rest) else none
]

-- A dot in front does not begin an extension.
abbrev pub stem_ext : Bytes → Option (Bytes × Bytes) → Bytes × Bytes
stem_ext component none = (component, [])
stem_ext component (some ([], ext)) = (component, [])
stem_ext component (some (c ∷ stem, ext)) = (c ∷ stem, ext)

unfoldable pub split_stem_ext : Bytes → Bytes × Bytes
split_stem_ext component = stem_ext component (split_last_dot component)

-- `u32::to_string`. Ten digits are enough below 2 ^ 32, and a round is left over.
unfoldable pub digits_within : ℕ → ℕ → Bytes
digits_within zero n = []
digits_within (suc rounds) n =
    let rest = digits_within rounds (n / 10) in
    if n / 10 == 0 then (b'0' + n % 10) ∷ [] else rest ++ (b'0' + n % 10) ∷ []

unfoldable pub decimal : ℕ → Bytes
decimal n = digits_within 11 n

-- `-{ordinal}`
abbrev pub suffix : ℕ → Bytes
suffix n = b'-' ∷ decimal n

-- `slice::strip_suffix`
unfoldable pub strip_suffix : Bytes → Bytes → Option Bytes
strip_suffix [] s = if eqb [] s then some [] else none
strip_suffix (x ∷ xs) s =
    let rest = strip_suffix xs s in
    if eqb (x ∷ xs) s then some [] else elim rest [ none ↦ none | some ys ↦ some (x ∷ ys) ]

-- The last component changed, the others kept.
unfoldable pub change_last :
    (Bytes → Result PlanError Bytes) → List Bytes → Result PlanError (List Bytes)
change_last f [] = err dest_has_no_components
change_last f (c ∷ []) = f c >>= λ c'. ok (c' ∷ [])
change_last f (c ∷ d ∷ rest) = change_last f (d ∷ rest) >>= λ rest'. ok (c ∷ rest')

abbrev pub with_suffix : ℕ → Bytes × Bytes → Bytes
with_suffix n (stem, ext) = to_hex (stem ++ (suffix n ++ ext))

unfoldable pub suffix_component : ℕ → Bytes → Result PlanError Bytes
suffix_component n c = do raw ← unhex c; ok (with_suffix n (split_stem_ext raw))

unfoldable pub suffix_last_component : List Bytes → ℕ → Result PlanError (List Bytes)
suffix_last_component parts n = change_last (suffix_component n) parts

abbrev pub rejoined : Bytes → Option Bytes → Result PlanError Bytes
rejoined ext none = err suffix_not_found
rejoined ext (some stem) = ok (to_hex (stem ++ ext))

abbrev pub without_suffix : ℕ → Bytes × Bytes → Result PlanError Bytes
without_suffix n (stem, ext) = rejoined ext (strip_suffix stem (suffix n))

unfoldable pub base_component : ℕ → Bytes → Result PlanError Bytes
base_component n c = do raw ← unhex c; without_suffix n (split_stem_ext raw)

abbrev base_of : List Bytes → ℕ → Result PlanError (List Bytes)
base_of parts zero = ok parts
base_of parts (suc n) = change_last (base_component (suc n)) parts

-- The destination's parts before an earlier pass suffixed them, by the recorded conflict.
unfoldable pub base_components : List Bytes → Conflict → Result PlanError (List Bytes)
base_components parts unsuffixed = ok parts
base_components parts (suffixed ordinal competing_with) = base_of parts ordinal
