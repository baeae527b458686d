-- ===== src/Diff/Steps.antt =====
-- src/core/diff.rs: what a step of `compare` checks and uses up.
use mathlib.Core.Path.{◌≡◌, refl, subst}
use mathlib.Core.List.{Memᴰ}
use mathlib.Core.List.Memᴰ
use mathlib.Core.Logic.{inl, inr}
use native.Mathlib.Omega.{arith}
use backupsage.Base.{
  ◌==◌, true, false, Option, none, some, is_some, List, [], ◌∷◌, map, any, filter, All, All-imp,
  Option-cases,
}
use backupsage.Base.Int.{ℤ}
use backupsage.Base.Order.{eqb, eqb_iff, eqb_refl, nat_ord, int_ord, list_ord, pair_ord, option_ord}
use backupsage.Base.SortedMap.{lookup}
use backupsage.Base.Members.{each_in, in_filter, All-filter, filter-All}
use backupsage.Coverage.{Bytes}
use backupsage.Diff.Types.{Entry, Snapshot}
use backupsage.Diff.Rows.{trusted_hash}
use backupsage.Diff.Compare.{Sides, Step, left_step, moved_to, can_move, could_hold, used_ids}
use backupsage.Diff.Unique.{has_hash}

not_there : {A : Type 0} (o : Option A) → is_some o ≡ false → o ≡ none
not_there none h = refl
not_there (some a) h = cc

-- The facts that `moved_to` checks before it gives an entry.
pub moved_to_checks :
    (c : Sides) (a b : Entry)
    → moved_to c a ≡ some b
    → (hash : Bytes) × (x : Entry) × (trusted_hash a ≡ some hash)
      × (c.is_compatible ≡ true)
      × ((a.size == 0) ≡ false)
      × (lookup hash c.before_hashes ≡ some x)
      × (lookup hash c.after_hashes ≡ some b)
      × (a.size ≡ b.size)
      × (lookup b.path c.left ≡ none)
      × (could_hold c.left_u b.path ≡ false)
unfolding moved_to can_move
moved_to_checks c a b h = elim (Option-cases (trusted_hash a)) [
  | inl n ↦ ground arith
  | inr (hash, t) ↦ elim (Option-cases (lookup hash c.before_hashes)) [
    | inl n ↦ ground arith
    | inr (x, l) ↦ elim (Option-cases (lookup hash c.after_hashes)) [
      | inl n ↦ ground arith
      | inr (y, r) ↦
          let same : y ≡ b = ground arith in
          (
            hash,
            x,
            t,
            ground arith,
            ground arith,
            l,
            ground arith,
            ground arith,
            not_there (lookup b.path c.left) (ground (arith, same)),
            ground (arith, same),
          )
    ]
  ]
]

pub hash_of_has : (hash : Bytes) (e : Entry) → has_hash hash e ≡ true → trusted_hash e ≡ some hash
hash_of_has hash e h = elim (Option-cases (trusted_hash e)) [
  | inl n ↦ ground arith
  | inr (k, t) ↦ ground (arith, (eqb_iff hash k).0)
]

-- The only entry with a hash is each entry that has it.
pub only_one :
    (hash : Bytes) (s : Snapshot) (a x : Entry)
    → Memᴰ a s.entries
    → has_hash hash a ≡ true
    → filter (has_hash hash) s.entries ≡ x ∷ []
    → a ≡ x
only_one hash s a x there h only =
    Memᴰ.eq_of_singleton (subst (Memᴰ a) only (in_filter (has_hash hash) s.entries a there h))

pub has_of_hash : (hash : Bytes) (e : Entry) → trusted_hash e ≡ some hash → has_hash hash e ≡ true
has_of_hash hash e t = rw t (eqb_refl hash)

-- The only entry with a hash is there, and has it.
pub only_there :
    (hash : Bytes) (s : Snapshot) (x : Entry)
    → filter (has_hash hash) s.entries ≡ x ∷ []
    → Memᴰ x s.entries × (has_hash hash x ≡ true)
only_there hash s x only = (
  (subst (All (λ e. Memᴰ e s.entries)) only
      (All-filter (λ e. Memᴰ e s.entries) (has_hash hash) s.entries (each_in s.entries))).0,
  (subst (All (λ e. has_hash hash e ≡ true)) only (filter-All (has_hash hash) s.entries)).0,
)

used_later :
    (id : ℤ) (s : Step) (steps : List Step)
    → any (eqb id) (used_ids steps) ≡ true
    → any (eqb id) (used_ids (s ∷ steps)) ≡ true
used_later id (c, none) steps h = h
used_later id (c, some i) steps h = ground (arith, h)

used_first :
    (id : ℤ) (s : Step) (steps : List Step)
    → s.1 ≡ some id
    → any (eqb id) (used_ids (s ∷ steps)) ≡ true
used_first id (c, none) steps h = cc
used_first id (c, some i) steps h = let same : i ≡ id = cc in rw same (ground (arith, eqb_refl id))

-- Each step's entry of the later snapshot is among the used ones.
pub steps_used :
    (c : Sides) (xs : List (Bytes × Entry))
    → All
        (λ x.
          (id : ℤ)
          → (left_step c x).1 ≡ some id
          → any (eqb id) (used_ids (map (left_step c) xs)) ≡ true)
        xs
steps_used c [] = tt
steps_used c (x ∷ xs) = (
  λ id h. used_first id (left_step c x) (map (left_step c) xs) h,
  All-imp (λ y h id at. used_later id (left_step c x) (map (left_step c) xs) (h id at)) xs
      (steps_used c xs),
)

pub step_at :
    (c : Sides) (path : Bytes) (a b : Entry)
    → lookup path c.right ≡ some b
    → (left_step c (path, a)).1 ≡ some b.file_id
unfolding left_step
step_at c path a b l = rw (l, left_step) refl
