-- ===== src/Dedup/Keep.antt =====
-- src/core/dedup.rs: `pick_keep` and `member_is_actionable`. A member is its index in the scope's
-- rows, with its row. `stem_of` is the lower-case file stem of a path (std's `Path::file_stem`,
-- `to_string_lossy` and `to_lowercase`).
use text.Mathlib.Text.{◌==◌ as str_eq}
use backupsage.Base.{
  ℕ, ◌*◌, ◌-◌, ◌^◌, leb, String, Bool, true, false, not, ◌&&◌, ◌||◌, Option, none, some, List, [],
  ◌∷◌, length, is_some, all, any, filter, if◌then◌else◌,
}
use backupsage.Base.Int.{ℤ, negsuc}
use backupsage.Base.Order.{
  Ord, Reverse, eqb, lessb, nat_ord, int_ord, pair_ord, reverse_ord, option_ord,
}
use backupsage.Coverage.{Bytes}
use backupsage.Dedup.Types.{Row, shadowed, is_hardlink, best_ts}
use backupsage.Dedup.Markers.{Chars, has_conflict_marker}

abbrev pub Indexed : Type 0
Indexed = ℕ × Row

abbrev pub get_or {ℓ} : {A : Type ℓ} → A → Option A → A
get_or x none = x
get_or x (some y) = y

abbrev pub i64_min : ℤ
i64_min = negsuc (2 ^ 63 - 1)

-- `Iterator::max_by_key`, from a first value: of equal keys the last one stays.
module _ {A : Type 0} {K : Type 0} ⦃o : Ord K⦄ (key : A → K) where
  unfoldable pub max_from : A → List A → A
  max_from best [] = best
  max_from best (x ∷ xs) = max_from (if lessb (key x) (key best) then best else x) xs

abbrev pub flag_rank : Bool → ℕ
flag_rank true = 1
flag_rank false = 0

unfoldable pub near_key : Indexed → ℕ × (ℕ × (ℤ × Reverse (ℤ × ℤ)))
near_key (_, r) = (
  get_or 0 r.img_w * get_or 0 r.img_h,
  (r.size, (get_or i64_min (best_ts r).0, record { value = (r.archive_id, r.file_id) })),
)

unfoldable pub exact_key : (Bytes → Chars) → Indexed → ℤ × (ℕ × (Reverse ℕ × Reverse (ℤ × ℤ)))
exact_key stem_of (_, r) = (
  get_or i64_min (best_ts r).0,
  (
    flag_rank (not (has_conflict_marker (stem_of r.path))),
    (record { value = length r.path }, record { value = (r.archive_id, r.file_id) }),
  ),
)

-- Shadowed rows and hardlinks are never kept.
abbrev pub eligible : Indexed → Bool
eligible (_, r) = not (shadowed r) && not (is_hardlink r)

abbrev pub best_of : (Bytes → Chars) → String → Indexed → List Indexed → Indexed
best_of stem_of kind first rest =
    if str_eq kind "near"
    then max_from near_key first rest
    else max_from (exact_key stem_of) first rest

abbrev pub time_of : Indexed → Option ℤ
time_of (_, r) = (best_ts r).0

abbrev pub is_newest : Indexed → List Indexed → Bool
is_newest best es =
    all (λ e. not (lessb (get_or i64_min (time_of best)) (get_or i64_min (time_of e)))) es

abbrev pub has_other_time : Indexed → List Indexed → Bool
has_other_time best es = any (λ e. not (eqb (time_of e) (time_of best))) es

abbrev pub reason_for : String → Indexed → List Indexed → String
reason_for kind best es =
    if str_eq kind "near"
    then (if is_some (best.1).img_w then "highest-resolution" else "largest")
    else if is_newest best es && has_other_time best es
    then "newest"
    else "clean-path"

abbrev pub pick_among : (Bytes → Chars) → String → List Indexed → Option (Indexed × String)
pick_among stem_of kind [] = none
pick_among stem_of kind (e ∷ es) =
    some (best_of stem_of kind e es, reason_for kind (best_of stem_of kind e es) (e ∷ es))

-- `pick_keep`
unfoldable pub pick_keep : (Bytes → Chars) → String → List Indexed → Option (Indexed × String)
pick_keep stem_of kind members = pick_among stem_of kind (filter eligible members)

abbrev pub is_within : ℕ → Option ℕ → Bool
is_within threshold none = false
is_within threshold (some d) = leb d threshold

-- The keeper-star rule.
unfoldable pub member_is_actionable : String → Bool → Bool → Bool → Option ℕ → ℕ → Bool
member_is_actionable kind is_keep shadowed hardlink hamming_to_keep threshold =
    if is_keep || (shadowed || hardlink)
    then false
    else if str_eq kind "exact"
    then true
    else if str_eq kind "near"
    then is_within threshold hamming_to_keep
    else false
