-- ===== src/Diff/Shown.antt =====
-- src/core/diff.rs: the evidence behind the changes that a comparison reports.
use mathlib.Core.Path.{◌≡◌, refl, sym, ap, subst, ◌∙◌}
use mathlib.Core.List.{Memᴰ}
use mathlib.Core.Logic.{◌⊎◌, inl, inr}
use native.Mathlib.Omega.{arith}
use backupsage.Base.{
  any, is_some, not, ◌==◌, ==_iff, Bool, true, false, not, ◌&&◌, ◌||◌, Option, none, some, [], ◌∷◌,
  filter, Bool-cases,
}
use backupsage.Base.Order.{eqb, eqb_iff, nat_ord, int_ord, list_ord, pair_ord, option_ord}
use backupsage.Coverage.{Bytes}
use backupsage.Diff.Types.{
  complete, Entry, Snapshot, SnapshotInfo, ChangeKind, added, removed, moved, byte_identical,
  inconclusive, Change, report_entry,
}
use backupsage.Diff.Rows.{
  compatible, absence, trusted_hash, same_path, same_content, by_hashes, metadata_known, is_file,
}
use backupsage.Diff.Compare.{Sides, change, matched}
use backupsage.Diff.Report.{both_compatible}
use backupsage.Diff.Unique.{has_hash}
use backupsage.Diff.Visible.{IsAbsent}

-- Both entries carry this trusted hash, at one size.
abbrev pub IsSameContent : Bytes → Entry → Entry → Type 0
IsSameContent hash a b =
    (trusted_hash a ≡ some hash) × (trusted_hash b ≡ some hash) × (a.size ≡ b.size)

-- The change is of this entry of the earlier snapshot and this one of the later.
abbrev pub IsPair : Snapshot → Snapshot → Change → Entry → Entry → Type 0
IsPair old new c a b =
    Memᴰ a old.entries
    × Memᴰ b new.entries
    × (c.before ≡ some (report_entry a))
    × (c.after ≡ some (report_entry b))

-- A hash that one entry of a complete snapshot has, and no other, where every entry has a trusted hash.
abbrev pub IsUniqueIn : Bytes → Snapshot → Entry → Type 0
IsUniqueIn hash s e =
    (s.info.state ≡ complete)
    × (filter (has_hash hash) s.entries ≡ e ∷ [])
    × (any (λ x. not (is_some (trusted_hash x))) s.entries ≡ false)

-- What the kind of a change promises of the two snapshots.
abbrev pub IsShown : Snapshot → Snapshot → Change → ChangeKind → Type 0
IsShown old new c added =
    (b : Entry) × Memᴰ b new.entries
    × (c.before ≡ none)
    × (c.after ≡ some (report_entry b))
    × (old.info.state ≡ complete)
    × (both_compatible old new ≡ true)
    × IsAbsent b.path old
IsShown old new c removed =
    (a : Entry) × Memᴰ a old.entries
    × (c.before ≡ some (report_entry a))
    × (c.after ≡ none)
    × (new.info.state ≡ complete)
    × (both_compatible old new ≡ true)
    × IsAbsent a.path new
IsShown old new c moved =
    (hash : Bytes) × (a : Entry) × (b : Entry) × IsPair old new c a b
    × (both_compatible old new ≡ true)
    × IsSameContent hash a b
    × ((a.size == 0) ≡ false)
    × IsUniqueIn hash old a
    × IsUniqueIn hash new b
    × IsAbsent a.path new
    × IsAbsent b.path old
IsShown old new c byte_identical =
    (hash : Bytes) × (a : Entry) × (b : Entry) × IsPair old new c a b
    × (a.path ≡ b.path)
    × (both_compatible old new ≡ true)
    × IsSameContent hash a b
    × (a.mtime_unix ≡ b.mtime_unix)
    × (a.mode ≡ b.mode)
IsShown old new c _ = Unit

abbrev pub IsShownChange : Snapshot → Snapshot → Change → Type 0
IsShownChange old new c = IsShown old new c c.kind

absence_cases :
    (info : SnapshotInfo) (b : Bool) (k : ChangeKind)
    → (b ≡ true → compatible info ≡ true)
    → ((absence info b k).0 ≡ inconclusive)
      ⊎ (((absence info b k).0 ≡ k) × (b ≡ true) × (info.state ≡ complete))
unfolding absence compatible
absence_cases info b k h = ground (arith, h)

both_left : (a b : Bool) → (a && b) ≡ true → a ≡ true
both_left a b = ground arith

both_right : (a b : Bool) → (a && b) ≡ true → b ≡ true
both_right a b = ground arith

pub removed_shown :
    (old new : Snapshot) (e : Entry)
    → Memᴰ e old.entries
    → IsAbsent e.path new
    → IsShownChange old new
        (change (absence new.info (both_compatible old new) removed) (some e) none)
unfolding change
removed_shown old new e there gone =
    let c = change (absence new.info (both_compatible old new) removed) (some e) none in
    elim (absence_cases new.info (both_compatible old new) removed (both_right _ _)) [
      | inl i ↦ subst (IsShown old new c) (sym i) tt
      | inr (k, b, s) ↦ subst (IsShown old new c) (sym k) (e, there, refl, refl, s, b, gone)
    ]

pub added_shown :
    (old new : Snapshot) (e : Entry)
    → Memᴰ e new.entries
    → IsAbsent e.path old
    → IsShownChange old new
        (change (absence old.info (both_compatible old new) added) none (some e))
unfolding change
added_shown old new e there gone =
    let c = change (absence old.info (both_compatible old new) added) none (some e) in
    elim (absence_cases old.info (both_compatible old new) added (both_left _ _)) [
      | inl i ↦ subst (IsShown old new c) (sym i) tt
      | inr (k, b, s) ↦ subst (IsShown old new c) (sym k) (e, there, refl, refl, s, b, gone)
    ]

module _ (old new : Snapshot) (a b : Entry) (c : Change) (pair : IsPair old new c a b)
    (paths : a.path ≡ b.path) (both : both_compatible old new ≡ true) where
  same_content-IsShown :
      (hash : Bytes) → IsSameContent hash a b → IsShown old new c (same_content a b).0
  same_content-IsShown hash same =
      elim (Bool-cases (not (metadata_known a) || not (metadata_known b))) [
        | inl y ↦ rw y tt
        | inr n ↦ rw n (elim (Bool-cases (eqb a.mtime_unix b.mtime_unix && eqb a.mode b.mode)) [
          | inl y ↦ rw y (
            hash,
            a,
            b,
            pair,
            paths,
            both,
            same,
            (eqb_iff a.mtime_unix b.mtime_unix).0 (both_left _ _ y),
            (eqb_iff a.mode b.mode).0 (both_right _ _ y),
          )
          | inr m ↦ rw m tt
        ])
      ]

  by_hashes-IsShown :
      (p q : Option Bytes)
      → trusted_hash a ≡ p
      → trusted_hash b ≡ q
      → IsShown old new c (by_hashes p q a b).0
  by_hashes-IsShown none q h k = tt
  by_hashes-IsShown (some p) none h k = tt
  by_hashes-IsShown (some p) (some q) h k = elim (Bool-cases (eqb p q)) [
    | inr n ↦ rw n tt
    | inl y ↦ rw y (elim (Bool-cases (a.size == b.size)) [
      | inl z ↦ rw z (
          same_content-IsShown p
            (h, k ∙ ap (λ x. some x) (sym ((eqb_iff p q).0 y)), (==_iff a.size b.size).0 z))
      | inr n ↦ rw n tt
    ])
  ]

  same_path-IsShown : IsShown old new c (same_path a b).0
  unfolding same_path
  same_path-IsShown = elim (Bool-cases (not (is_file a.entry_type) || not (is_file b.entry_type))) [
    | inl y ↦ rw y tt
    | inr n ↦ rw n (by_hashes-IsShown (trusted_hash a) (trusted_hash b) refl refl)
  ]

pub matched_shown :
    (old new : Snapshot) (c : Sides) (a b : Entry)
    → c.is_compatible ≡ both_compatible old new
    → Memᴰ a old.entries
    → Memᴰ b new.entries
    → a.path ≡ b.path
    → IsShownChange old new (matched c a b).0
unfolding change
matched_shown old new c a b same at_a at_b paths = elim (Bool-cases c.is_compatible) [
  | inl y ↦ rw y (
      same_path-IsShown old new a b (change (same_path a b) (some a) (some b))
        (at_a, at_b, refl, refl) paths (sym same ∙ y))
  | inr n ↦ rw n tt
]
