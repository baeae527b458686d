-- ===== src/Dedup/Keeper.antt =====
-- src/core/dedup.rs: the member that `pick_keep` picks.
use text.Mathlib.Text.{◌==◌ as str_eq}
use mathlib.Core.List.{Memᴰ}
use backupsage.Base.{
  ◌≡◌, ◌⊎◌, refl, sym, subst, arith, ℕ, ◌*◌, ◌<◌, String, Bool, true, false, not, Option, none,
  some, List, [], ◌∷◌, All, All-imp, filter, length, if◌then◌else◌, Bool-cases, inl, inr,
}
use backupsage.Base.Int.{ℤ}
use backupsage.Base.Order.{Ord, Reverse, lessb, nat_ord, int_ord, pair_ord, reverse_ord}
use backupsage.Base.Members.{each_in, All-filter, filter-All}
use backupsage.Coverage.{Bytes}
use backupsage.Dedup.Types.{Row, best_ts}
use backupsage.Dedup.Markers.{Chars, has_conflict_marker}
use backupsage.Dedup.Best.{is_beaten, best_of-All, best_of-top}
use backupsage.Dedup.Keep.{
  Indexed, get_or, i64_min, flag_rank, near_key, exact_key, eligible, best_of, pick_among,
  pick_keep,
}

-- What two rows are compared by.
abbrev pub pixels : Row → ℕ
pixels r = get_or 0 r.img_w * get_or 0 r.img_h

abbrev pub time : Row → ℤ
time r = get_or i64_min (best_ts r).0

abbrev pub id : Row → ℤ × ℤ
id r = (r.archive_id, r.file_id)

-- The first row's id is not the greater one.
abbrev pub IsFirstById : Row → Row → Type 0
IsFirstById k r = lessb (id r) (id k) ≡ false

-- More pixels; then a greater size; then a later time; then the lower id.
abbrev pub IsBetterNear : Row → Row → Type 0
IsBetterNear k r =
    (pixels r < pixels k)
    ⊎ ((pixels r ≡ pixels k)
        × ((r.size < k.size)
            ⊎ ((r.size ≡ k.size)
                × ((lessb (time r) (time k) ≡ true) ⊎ ((time r ≡ time k) × IsFirstById k r)))))

abbrev pub is_marked : (Bytes → Chars) → Row → Bool
is_marked stem_of r = has_conflict_marker (stem_of r.path)

-- A later time; then a name without a conflict marker; then a shorter path; then the lower id.
abbrev pub IsBetterExact : (Bytes → Chars) → Row → Row → Type 0
IsBetterExact stem_of k r =
    (lessb (time r) (time k) ≡ true)
    ⊎ ((time r ≡ time k)
        × (((is_marked stem_of k ≡ false) × (is_marked stem_of r ≡ true))
            ⊎ ((is_marked stem_of r ≡ is_marked stem_of k)
                × ((length k.path < length r.path)
                    ⊎ ((length r.path ≡ length k.path) × IsFirstById k r)))))

abbrev pub IsBetter : (Bytes → Chars) → Bool → Row → Row → Type 0
IsBetter stem_of true k r = IsBetterNear k r
IsBetter stem_of false k r = IsBetterExact stem_of k r

pair_over :
    {A B : Type 0}
    → ⦃o : Ord A⦄ → ⦃u : Ord B⦄ → (a a' : A) (b b' : B) → lessb {K = A × B} (a, b) (a', b') ≡ false
    → (lessb a' a ≡ true) ⊎ ((a' ≡ a) × (lessb b b' ≡ false))
unfolding pair_ord
pair_over ⦃o⦄ ⦃u⦄ a a' b b' h = ground (arith, h, o.flipped a a', o.eq_of a a', o.same a)

lessb-lt : (m n : ℕ) → lessb m n ≡ true → m < n
unfolding nat_ord
lessb-lt m n h = ground arith

reverse_over :
    {A : Type 0}
    → ⦃o : Ord A⦄ → (a b : A)
    → lessb {K = Reverse A} (record { value = a }) (record { value = b }) ≡ false
    → lessb b a ≡ false
unfolding reverse_ord
reverse_over a b h = h

reverse_nat_less :
    (m n : ℕ) → lessb {K = Reverse ℕ} (record { value = m }) (record { value = n }) ≡ true → n < m
unfolding reverse_ord nat_ord
reverse_nat_less m n h = ground arith

reverse_value :
    {A : Type 0} (a b : A)
    → ◌≡◌ {A = Reverse A} (record { value = a }) (record { value = b })
    → a ≡ b
reverse_value a b e = λ i. (e i).value

flag_rank_less :
    (a b : Bool) → lessb (flag_rank (not a)) (flag_rank (not b)) ≡ true → (b ≡ false) × (a ≡ true)
unfolding nat_ord
flag_rank_less a b h = ground arith

flag_rank_same : (a b : Bool) → flag_rank (not a) ≡ flag_rank (not b) → a ≡ b
flag_rank_same a b h = ground arith

near_better : (a b : Indexed) → lessb (near_key a) (near_key b) ≡ false → IsBetterNear a.1 b.1
unfolding near_key
near_better (i, k) (j, r) h = elim (pair_over (pixels k) (pixels r) _ _ h) [
  | inl more ↦ inl (lessb-lt (pixels r) (pixels k) more)
  | inr (same, h₁) ↦ inr (
    same,
    elim (pair_over k.size r.size _ _ h₁) [
      | inl more ↦ inl (lessb-lt r.size k.size more)
      | inr (size, h₂) ↦ inr (
        size,
        elim (pair_over (time k) (time r) _ _ h₂) [
          | inl later ↦ inl later
          | inr (at, h₃) ↦ inr (at, reverse_over (id k) (id r) h₃)
        ],
      )
    ],
  )
]

exact_better :
    (stem_of : Bytes → Chars) (a b : Indexed)
    → lessb (exact_key stem_of a) (exact_key stem_of b) ≡ false
    → IsBetterExact stem_of a.1 b.1
unfolding exact_key
exact_better stem_of (i, k) (j, r) h = elim (pair_over (time k) (time r) _ _ h) [
  | inl later ↦ inl later
  | inr (at, h₁) ↦ inr (
    at,
    elim (pair_over (flag_rank (not (is_marked stem_of k))) (flag_rank (not (is_marked stem_of r)))
        _ _ h₁) [
          | inl clean ↦ inl (flag_rank_less (is_marked stem_of r) (is_marked stem_of k) clean)
          | inr (same, h₂) ↦ inr (
            flag_rank_same (is_marked stem_of r) (is_marked stem_of k) same,
            elim (pair_over {A = Reverse ℕ} (record { value = length k.path })
                (record { value = length r.path }) _ _ h₂) [
                  | inl short ↦ inl (reverse_nat_less (length r.path) (length k.path) short)
                  | inr (long, h₃) ↦ inr (
                    reverse_value (length r.path) (length k.path) long,
                    reverse_over (id k) (id r) h₃,
                  )
                ],
          )
        ],
  )
]

is_beaten-IsBetter :
    (stem_of : Bytes → Chars) (kind : String) (a b : Indexed)
    → is_beaten stem_of kind a b ≡ false
    → IsBetter stem_of (str_eq kind "near") a.1 b.1
is_beaten-IsBetter stem_of kind a b h = by (str_eq kind "near") h
  where
    by :
        (near : Bool)
        → (if near
            then lessb (near_key a) (near_key b)
            else lessb (exact_key stem_of a) (exact_key stem_of b))
          ≡ false
        → IsBetter stem_of near a.1 b.1
    by true h = near_better a b h
    by false h = exact_better stem_of a b h

-- What `pick_keep` gives: nothing where no member may be kept; else a member, with its index, that
-- may be kept and is better than all others that may.
abbrev pub IsPicked : (Bytes → Chars) → String → List Indexed → Option (Indexed × String) → Type 0
IsPicked stem_of kind members none = All (λ e. eligible e ≡ false) members
IsPicked stem_of kind members (some (keep, reason)) =
    Memᴰ keep members
    × (eligible keep ≡ true)
    × All (λ e. eligible e ≡ true → IsBetter stem_of (str_eq kind "near") keep.1 e.1) members

filtered :
    {A : Type 0} (P : A → Type 0) (test : A → Bool) (xs : List A)
    → All P (filter test xs)
    → All (λ x. test x ≡ true → P x) xs
filtered P test [] h = tt
filtered P test (x ∷ xs) h = elim (Bool-cases (test x)) [
  | inl y ↦ let both = rw y at h in (λ t. both.0, filtered P test xs both.1)
  | inr n ↦ (λ t. cc, filtered P test xs (rw n at h))
]

none_filtered :
    {A : Type 0} (test : A → Bool) (xs : List A)
    → filter test xs ≡ []
    → All (λ x. test x ≡ false) xs
none_filtered test [] h = tt
none_filtered test (x ∷ xs) h = elim (Bool-cases (test x)) [
  | inl y ↦ ground (arith, y, h)
  | inr n ↦ (n, none_filtered test xs (rw n at h))
]

pick_among-IsPicked :
    (stem_of : Bytes → Chars) (kind : String) (members es : List Indexed)
    → filter eligible members ≡ es
    → All (λ e. Memᴰ e members) es
    → All (λ e. eligible e ≡ true) es
    → IsPicked stem_of kind members (pick_among stem_of kind es)
pick_among-IsPicked stem_of kind members [] same there may = none_filtered eligible members same
pick_among-IsPicked stem_of kind members (e ∷ es) same there may =
    let keep = best_of stem_of kind e es in
    let better =
      All-imp (λ x h. is_beaten-IsBetter stem_of kind keep x h) (e ∷ es)
        (best_of-top stem_of kind e es) in
    let P = λ (x : Indexed). IsBetter stem_of (str_eq kind "near") keep.1 x.1 in
    (
      best_of-All stem_of kind (λ x. Memᴰ x members) e es there,
      best_of-All stem_of kind (λ x. eligible x ≡ true) e es may,
      filtered P eligible members (subst (All P) (sym same) better),
    )

-- `pick_keep` gives nothing exactly where every member is shadowed or a hard link. Else it gives a
-- member of the group, with its own index, that is neither, and that is the best of those that are
-- neither: in a near group by more pixels, then a greater size, a later time and the lower id; in
-- another one by a later time, then a name without a conflict marker, a shorter path and the lower
-- id.
pub pick_keep_best :
    (stem_of : Bytes → Chars) (kind : String) (members : List Indexed)
    → IsPicked stem_of kind members (pick_keep stem_of kind members)
unfolding pick_keep
pick_keep_best stem_of kind members =
    pick_among-IsPicked stem_of kind members (filter eligible members) refl
      (All-filter (λ e. Memᴰ e members) eligible members (each_in members))
      (filter-All eligible members)
