-- ===== src/Diff/Visible.antt =====
-- src/core/diff.rs: what `visible` keeps of a snapshot, and which paths are absent from it.
use mathlib.Core.Path.{◌≡◌, refl, subst}
use mathlib.Core.List.{Memᴰ}
use mathlib.Core.Logic.{inl, inr}
use native.Mathlib.Omega.{arith}
use backupsage.Base.{
  Bool, true, false, ◌&&◌, none, some, is_some, List, [], ◌∷◌, map, any, filter, All, ok, >>=-eq-ok,
  ok-injective, bail_if, Bool-cases,
}
use backupsage.Base.Int.{ℤ}
use backupsage.Base.Order.{eqb, eqb_iff, lessb, IsSorted, nat_ord, int_ord, list_ord}
use backupsage.Base.SortedMap.{
  SortedMap, keys, lookup, upsert, lookup-upsert, upsert-IsSorted, upsert_entry-All,
}
use backupsage.Base.Members.{each_in}
use backupsage.Legacy.{could_be}
use backupsage.Coverage.{Bytes}
use backupsage.Diff.Types.{Entry, Snapshot, unavailable_but_carries_rows}
use backupsage.Diff.Rows.{uncertain_name, is_unavailable}
use backupsage.Diff.Compare.{
  Paths, newer, note_visible, carries_rows, visible_from, visible, uncertain_paths, could_hold,
}

visible_from-cons :
    (ids : SortedMap ℤ (Unit {0})) (paths found : Paths) (e : Entry) (es : List Entry)
    → visible_from ids paths (e ∷ es) ≡ ok found
    → visible_from (upsert e.file_id (λ _. tt) ids) (note_visible e paths) es ≡ ok found
unfolding visible_from
visible_from-cons ids paths found e es h = ground arith

note_visible-IsSorted :
    (e : Entry) (paths : Paths) → IsSorted (keys paths) → IsSorted (keys (note_visible e paths))
note_visible-IsSorted e paths s = elim (Bool-cases (uncertain_name e)) [
  | inl y ↦ rw y s
  | inr n ↦ rw n (upsert-IsSorted e.path (newer e) paths s)
]

visible_from-IsSorted :
    (ids : SortedMap ℤ (Unit {0})) (paths found : Paths) (es : List Entry)
    → visible_from ids paths es ≡ ok found
    → IsSorted (keys paths)
    → IsSorted (keys found)
unfolding visible_from
visible_from-IsSorted ids paths found [] h s = subst (λ m. IsSorted (keys m)) (ok-injective h) s
visible_from-IsSorted ids paths found (e ∷ es) h s =
    visible_from-IsSorted (upsert e.file_id (λ _. tt) ids) (note_visible e paths) found es
      (visible_from-cons ids paths found e es h) (note_visible-IsSorted e paths s)

module _ (Q : Entry → Type 0) where
  -- An entry under its own path.
  abbrev IsNamed : Bytes × Entry → Type 0
  IsNamed (path, e) = (e.path ≡ path) × Q e

  newer-IsNamed :
      (e : Entry) → Q e → (v : Entry) → IsNamed (e.path, v) → IsNamed (e.path, newer e (some v))
  newer-IsNamed e q v h = elim (Bool-cases (lessb v.file_id e.file_id)) [
    | inl y ↦ rw y (refl, q)
    | inr n ↦ rw n h
  ]

  note_visible-Named :
      (e : Entry) (paths : Paths) → Q e → All IsNamed paths → All IsNamed (note_visible e paths)
  note_visible-Named e paths q h = elim (Bool-cases (uncertain_name e)) [
    | inl y ↦ rw y h
    | inr n ↦ rw n (upsert_entry-All IsNamed e.path (newer e) paths (refl, q) (newer-IsNamed e q) h)
  ]

  visible_from-Named :
      (ids : SortedMap ℤ (Unit {0})) (paths found : Paths) (es : List Entry)
      → visible_from ids paths es ≡ ok found
      → All Q es
      → All IsNamed paths
      → All IsNamed found
  unfolding visible_from
  visible_from-Named ids paths found [] h qs s = subst (All IsNamed) (ok-injective h) s
  visible_from-Named ids paths found (e ∷ es) h (q, qs) s =
      visible_from-Named (upsert e.file_id (λ _. tt) ids) (note_visible e paths) found es
        (visible_from-cons ids paths found e es h) qs (note_visible-Named e paths q s)

abbrev has_path : Paths → Bytes → Bool
has_path paths path = is_some (lookup path paths)

note_visible-keeps :
    (e : Entry) (paths : Paths) (path : Bytes)
    → has_path paths path ≡ true
    → has_path (note_visible e paths) path ≡ true
note_visible-keeps e paths path h = elim (Bool-cases (uncertain_name e)) [
  | inl y ↦ rw y h
  | inr n ↦ rw n (ground (arith, h, lookup-upsert e.path path (newer e) paths))
]

note_visible-new :
    (e : Entry) (paths : Paths)
    → uncertain_name e ≡ false
    → has_path (note_visible e paths) e.path ≡ true
note_visible-new e paths n =
    rw n
      (ground (arith, lookup-upsert e.path e.path (newer e) paths, (eqb_iff e.path e.path).1 refl))

visible_from-keeps :
    (ids : SortedMap ℤ (Unit {0})) (paths found : Paths) (es : List Entry) (path : Bytes)
    → visible_from ids paths es ≡ ok found
    → has_path paths path ≡ true
    → has_path found path ≡ true
unfolding visible_from
visible_from-keeps ids paths found [] path h s =
    subst (λ m. has_path m path ≡ true) (ok-injective h) s
visible_from-keeps ids paths found (e ∷ es) path h s =
    visible_from-keeps (upsert e.file_id (λ _. tt) ids) (note_visible e paths) found es path
      (visible_from-cons ids paths found e es h) (note_visible-keeps e paths path s)

visible_from-all :
    (ids : SortedMap ℤ (Unit {0})) (paths found : Paths) (es : List Entry)
    → visible_from ids paths es ≡ ok found
    → All (λ e. uncertain_name e ≡ false → has_path found e.path ≡ true) es
visible_from-all ids paths found [] h = tt
visible_from-all ids paths found (e ∷ es) h =
    let later = visible_from-cons ids paths found e es h in
    let ids' = upsert e.file_id (λ _. tt) ids in
    (
      λ n.
          visible_from-keeps ids' (note_visible e paths) found es e.path later
            (note_visible-new e paths n),
      visible_from-all ids' (note_visible e paths) found es later,
    )

-- No entry has this path: not one whose name is certain, nor could one whose name is not.
abbrev pub IsAbsent : Bytes → Snapshot → Type 0
IsAbsent path s =
    All
      (λ e.
        (uncertain_name e ≡ false → eqb e.path path ≡ false)
        × (uncertain_name e ≡ true → could_be e.path path ≡ false))
      s.entries

-- The paths of a snapshot: in order, each with an entry of the snapshot that has it.
pub record IsView (s : Snapshot) (paths : Paths) : Type 0 where
  pub sorted : IsSorted (keys paths)
  pub named : All (λ (x : Bytes × Entry). (x.1.path ≡ x.0) × Memᴰ x.1 s.entries) paths
  pub all : All (λ e. uncertain_name e ≡ false → has_path paths e.path ≡ true) s.entries

pub visible-IsView : (s : Snapshot) (paths : Paths) → visible s ≡ ok paths → IsView s paths
unfolding visible
visible-IsView s paths h =
    let (_, _, h₁) =
      >>=-eq-ok
        (bail_if (is_unavailable s.info.state && carries_rows s.entries)
          unavailable_but_carries_rows)
        _ h in
    record {
      sorted = visible_from-IsSorted [] [] paths s.entries h₁ tt;
      named =
          visible_from-Named (λ e. Memᴰ e s.entries) [] [] paths s.entries h₁ (each_in s.entries)
            tt;
      all = visible_from-all [] [] paths s.entries h₁;
    }

could_hold-each :
    (es : List Entry) (path : Bytes)
    → any (λ t. could_be t path) (map (λ e. e.path) (filter uncertain_name es)) ≡ false
    → All (λ e. uncertain_name e ≡ true → could_be e.path path ≡ false) es
could_hold-each [] path h = tt
could_hold-each (e ∷ es) path h = elim (Bool-cases (uncertain_name e)) [
  | inr n ↦ (λ y. cc, could_hold-each es path (rw n at h))
  | inl y ↦
      let h₁ = rw y at h in (λ _. ground (arith, h₁), could_hold-each es path (ground (arith, h₁)))
]

-- A path that the view lacks, and that no uncertain name could stand for, is absent.
pub view-IsAbsent :
    (s : Snapshot) (paths : Paths) (path : Bytes)
    → IsView s paths
    → lookup path paths ≡ none
    → could_hold (uncertain_paths s) path ≡ false
    → IsAbsent path s
unfolding could_hold
view-IsAbsent s paths path v gone unclear =
    both s.entries v.all (could_hold-each s.entries path unclear)
  where
    apart : (e : Entry) → has_path paths e.path ≡ true → eqb e.path path ≡ false
    apart e h = elim (Bool-cases (eqb e.path path)) [
      | inr n ↦ n
      | inl y ↦
          let at : has_path paths path ≡ true =
            subst (λ p. has_path paths p ≡ true) ((eqb_iff e.path path).0 y) h in
          ground (arith, at, gone)
    ]

    both :
        (es : List Entry)
        → All (λ e. uncertain_name e ≡ false → has_path paths e.path ≡ true) es
        → All (λ e. uncertain_name e ≡ true → could_be e.path path ≡ false) es
        → All
            (λ e.
              (uncertain_name e ≡ false → eqb e.path path ≡ false)
              × (uncertain_name e ≡ true → could_be e.path path ≡ false))
            es
    both [] h k = tt
    both (e ∷ es) (h, hs) (k, ks) = ((λ n. apart e (h n), k), both es hs ks)
