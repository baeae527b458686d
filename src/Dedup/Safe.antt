-- ===== src/Dedup/Safe.antt =====
-- src/core/dedup.rs: which members of a judged group may be reclaimed.
use text.Mathlib.Text.{◌==◌ as str_eq}
use mathlib.Core.List.{Memᴰ}
use backupsage.Base.{
  ◌≡◌, ◌⊎◌, refl, ap, subst, inl, inr, arith, ℕ, ◌+◌, ◌≤◌, String, Bool, true, false, ◌&&◌, Option,
  none, some, List, [], ◌∷◌, map, All, All-imp, All-and, All-map, All-of_map, Bool-cases,
  Option-cases,
}
use backupsage.Base.Int.{ℤ}
use backupsage.Base.Order.{nat_ord, int_ord, pair_ord}
use backupsage.Base.Sort.{All-sort_by, All-of_sort_by}
use backupsage.Base.Members.{each_in, All-at}
use backupsage.Coverage.{Bytes}
use backupsage.Phash.{hamming}
use backupsage.Dedup.Types.{Row, Member, Group, shadowed, is_hardlink}
use backupsage.Dedup.Markers.{Chars}
use backupsage.Dedup.Keep.{Indexed, pick_keep, member_is_actionable}
use backupsage.Dedup.Keeper.{IsPicked, pick_keep_best}
use backupsage.Dedup.Assemble.{
  as_u64, Keeper, is_actionable, member_of, distance_to, Tally, group_with, by_id, keep_first,
  keep_first_key, one_archive, assemble,
}
use backupsage.Dedup.Gather.{RawGroup, indexed}
use backupsage.Dedup.Gathered.{IsRaw}

-- Two rows with one content hash, or with perceptual hashes that differ in few bits.
abbrev pub IsClose : ℕ → Row → Row → Type 0
IsClose threshold k r =
    ((h : Bytes) × (k.content_hash ≡ some h) × (r.content_hash ≡ some h))
    ⊎ ((a : ℤ) × (b : ℤ) × (k.phash ≡ some a)
        × (r.phash ≡ some b)
        × (hamming (as_u64 a) (as_u64 b) ≤ threshold))

-- A member is reported of a row.
pub record IsOf (m : Member) (r : Row) : Type 0 where
  pub archive_eq : m.archive_id ≡ r.archive_id
  pub file_eq : m.file_id ≡ r.file_id
  pub size_eq : m.size ≡ r.size

-- Why a member may be reclaimed: it is not the kept one, no shadowed row and no hard link, and its
-- row is close to that of a member of the group that is kept.
pub record IsReclaimable (rows : List Row) (threshold : ℕ) (members : List Member) (m : Member)
    : Type 0 where
  pub kept : Member
  pub kept_row : Row
  pub row : Row
  pub kept_in : Memᴰ kept members
  pub is_kept : kept.keep ≡ true
  pub kept_known : Memᴰ kept_row rows
  pub known : Memᴰ row rows
  pub kept_of : IsOf kept kept_row
  pub is_of : IsOf m row
  pub other : m.keep ≡ false
  pub plain : (shadowed row ≡ false) × (is_hardlink row ≡ false)
  pub close : IsClose threshold kept_row row

-- The rows of a group of a kind, with a keeper among them.
abbrev IsAlike : String → List Indexed → Type 0
IsAlike kind es =
    (kind ≡ "near") ⊎ ((kind ≡ "exact") × ((h : Bytes) × All (λ e. (e.1).content_hash ≡ some h) es))

distance-hamming :
    (kind : String) (k r : Row) (d : ℕ)
    → kind ≡ "near"
    → distance_to kind k r ≡ some d
    → (a : ℤ) × (b : ℤ) × (k.phash ≡ some a)
      × (r.phash ≡ some b)
      × (hamming (as_u64 a) (as_u64 b) ≡ d)
unfolding distance_to
distance-hamming kind k r d is_near h =
    let near : str_eq kind "near" ≡ true = rw is_near refl in
    let other : str_eq kind "exact" ≡ false = rw is_near refl in
    elim (Option-cases k.phash) [
      | inl n ↦ elim (Option-cases r.phash) [
        | inl n' ↦ ground (arith, n, n', other, h)
        | inr (b, q) ↦ ground (arith, n, q, other, h)
      ]
      | inr (a, p) ↦ elim (Option-cases r.phash) [
        | inl n' ↦ ground (arith, p, n', other, h)
        | inr (b, q) ↦ (a, b, p, q, ground (arith, p, q, near, h))
      ]
    ]

-- What makes a member actionable.
actionable_facts :
    (k : Keeper) (e : Indexed)
    → is_actionable k e ≡ true
    → ((member_of k e).keep ≡ false)
      × (shadowed e.1 ≡ false)
      × (is_hardlink e.1 ≡ false)
      × (k.kind ≡ "near"
          → (d : ℕ) × (distance_to k.kind (k.keep).1 e.1 ≡ some d) × (d ≤ k.threshold))
unfolding is_actionable member_is_actionable member_of
actionable_facts k (i, r) h = (
  ground (arith, h),
  ground (arith, h),
  ground (arith, h),
  λ is_near.
      let near : str_eq k.kind "near" ≡ true = rw is_near refl in
      let other : str_eq k.kind "exact" ≡ false = rw is_near refl in
      elim (Option-cases (distance_to k.kind (k.keep).1 r)) [
        | inl n ↦ ground (arith, n, near, other, h)
        | inr (d, at) ↦ (d, at, ground (arith, at, near, other, h))
      ],
)

actionable-IsClose :
    (k : Keeper) (e : Indexed) (es : List Indexed)
    → IsAlike k.kind es
    → Memᴰ k.keep es
    → Memᴰ e es
    → is_actionable k e ≡ true
    → IsClose k.threshold (k.keep).1 e.1
actionable-IsClose k e es (inr (_, (h, same))) kept there on = inl (
  h,
  All-at (λ x. (x.1).content_hash ≡ some h) es k.keep same kept,
  All-at (λ x. (x.1).content_hash ≡ some h) es e same there,
)
actionable-IsClose k e es (inl is_near) kept there on =
    let (_, _, _, measured) = actionable_facts k e on in
    let (d, at, low) = measured is_near in
    let (a, b, p, q, same) = distance-hamming k.kind (k.keep).1 e.1 d is_near at in
    inr (a, b, p, q, omega arith)

member_of-IsOf : (k : Keeper) (e : Indexed) → IsOf (member_of k e) e.1
unfolding member_of
member_of-IsOf k (i, r) = record { archive_eq = refl; file_eq = refl; size_eq = refl }

member_of-keep : (k : Keeper) → (member_of k k.keep).keep ≡ true
unfolding member_of
member_of-keep k = ground arith

member_of-actionable : (k : Keeper) (e : Indexed) → (member_of k e).actionable ≡ is_actionable k e
unfolding member_of
member_of-actionable k (i, r) = refl

-- The actionable members of a judged group may be reclaimed.
abbrev pub IsSafe : List Row → ℕ → Group → Type 0
IsSafe rows threshold g =
    All (λ m. m.actionable ≡ true → IsReclaimable rows threshold g.members m) g.members

judged-IsSafe :
    (rows : List Row) (k : Keeper) (es : List Indexed)
    → All (λ e. Memᴰ e.1 rows) es
    → IsAlike k.kind es
    → Memᴰ k.keep es
    → let members = keep_first (map (member_of k) es) in
      All (λ m. m.actionable ≡ true → IsReclaimable rows k.threshold members m) members
unfolding keep_first
judged-IsSafe rows k es known alike there =
    let members = keep_first (map (member_of k) es) in
    let P = λ (m : Member). m.actionable ≡ true → IsReclaimable rows k.threshold members m in
    let listed =
      All-of_map (λ m. Memᴰ m members) (member_of k) es
        (All-of_sort_by keep_first_key (λ m. Memᴰ m members) (map (member_of k) es)
          (each_in members)) in
    All-sort_by keep_first_key P (map (member_of k) es) (
      All-map P (member_of k) es (
        All-imp
          (λ e (m, at) on.
            let acts = subst (λ b. b ≡ true) (member_of-actionable k e) on in
            let (other, seen, plain, _) = actionable_facts k e acts in
            record {
              kept = member_of k k.keep;
              kept_row = (k.keep).1;
              row = e.1;
              kept_in = All-at (λ x. Memᴰ (member_of k x) members) es k.keep listed there;
              is_kept = member_of-keep k;
              kept_known = All-at (λ x. Memᴰ x.1 rows) es k.keep known there;
              known = at;
              kept_of = member_of-IsOf k k.keep;
              is_of = member_of-IsOf k e;
              other = other;
              plain = (seen, plain);
              close = actionable-IsClose k e es alike there m acts;
            })
          es (All-and (λ e. Memᴰ e es) (λ e. Memᴰ e.1 rows) es (each_in es) known)))

some_injective : {A : Type 0} {a b : A} → some a ≡ some b → a ≡ b
some_injective e = cc

group_with-IsSafe :
    (stem_of : Bytes → Chars) (rows : List Row) (threshold : ℕ) (kind : String) (es : List Indexed)
    (keep : Option (Indexed × String)) (g : Group) (t : Tally)
    → All (λ e. Memᴰ e.1 rows) es
    → IsAlike kind es
    → IsPicked stem_of kind es keep
    → group_with threshold kind es keep ≡ some (g, t)
    → IsSafe rows threshold g
group_with-IsSafe stem_of rows threshold kind es none g t known alike picked h = cc
group_with-IsSafe stem_of rows threshold kind es (some (keep, reason)) g t known alike (there, _, _)
      h =
    let k : Keeper = record { kind = kind; threshold = threshold; keep = keep; reason = reason } in
    subst (IsSafe rows threshold) (ap (λ (x : Group × Tally). x.0) (some_injective h))
      (judged-IsSafe rows k es known alike there)

indexed-known :
    (P : Row → Type 0) (i : ℕ) (rows : List Row) → All P rows → All (λ e. P e.1) (indexed i rows)
indexed-known P i [] h = tt
indexed-known P i (r ∷ rows) (p, h) = (p, indexed-known P (i + 1) rows h)

-- The groups that are made from raw groups of the scope's rows are safe.
pub assemble-IsSafe :
    (stem_of : Bytes → Chars) (across_only : Bool) (threshold : ℕ) (rows : List Row)
    (raw : RawGroup) (g : Group) (t : Tally)
    → IsRaw (indexed 0 rows) raw
    → assemble stem_of across_only threshold raw.0 raw.1 ≡ some (g, t)
    → IsSafe rows threshold g
unfolding assemble by_id
assemble-IsSafe stem_of across_only threshold rows (kind, members) g t (inside, alike) h =
    let es = by_id members in
    let key : Indexed → ℤ × ℤ = λ e. ((e.1).archive_id, (e.1).file_id) in
    let all_known = indexed-known (λ r. Memᴰ r rows) 0 rows (each_in rows) in
    let known =
      All-sort_by key (λ e. Memᴰ e.1 rows) members
        (All-imp (λ e m. All-at (λ x. Memᴰ x.1 rows) (indexed 0 rows) e all_known m) members
          inside) in
    elim (Bool-cases (across_only && one_archive es)) [
      | inl y ↦ ground (arith, y, h)
      | inr n ↦
          group_with-IsSafe stem_of rows threshold kind es (pick_keep stem_of kind es) g t known
            (sorted alike) (pick_keep_best stem_of kind es) (rw n at h)
    ]
  where
    sorted : IsAlike kind members → IsAlike kind (by_id members)
    sorted (inl e) = inl e
    sorted (inr (e, (c, same))) = inr (
      e,
      (
        c,
        All-sort_by (λ (x : Indexed). ((x.1).archive_id, (x.1).file_id))
            (λ x. (x.1).content_hash ≡ some c) members same,
      ),
    )
