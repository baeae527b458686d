-- ===== src/Diff/Evidence.antt =====
-- src/core/diff.rs: the evidence behind the changes that a comparison reports.
use mathlib.Core.Path.{◌≡◌, refl, sym, ap, subst, ◌∙◌}
use mathlib.Core.List.{Memᴰ}
use mathlib.Core.Logic.{inl, inr}
use native.Mathlib.Omega.{arith}
use backupsage.Base.{
  true, Option, none, some, [], ◌∷◌, ◌++◌, map, any, filter, All, All-of, All-imp, All-and, All-map,
  All-append, ok, Bool-cases, Option-cases,
}
use backupsage.Base.Int.{ℤ}
use backupsage.Base.Order.{eqb, nat_ord, int_ord, list_ord, pair_ord, option_ord}
use backupsage.Base.SortedMap.{lookup, values, lookup-All, All-lookup}
use backupsage.Base.Sort.{All-sort_by}
use backupsage.Base.Members.{All-filter, filter-All}
use backupsage.Coverage.{Bytes}
use backupsage.Diff.Types.{Entry, Snapshot, Change, DiffReport}
use backupsage.Diff.Rows.{uncertain_name}
use backupsage.Diff.Compare.{
  Sides, Step, change, changes_of, left_step, right_step, moved_or_gone, moved_to, change_key,
  could_hold, used_ids, unused, lost_before, lost_after,
}
use backupsage.Diff.Report.{compare, sort_changes, report_of}
use backupsage.Diff.Runs.{Run, compare-Run, sides_of}
use backupsage.Diff.Unique.{unique_hashes-only}
use backupsage.Diff.Steps.{
  moved_to_checks, hash_of_has, only_one, has_of_hash, only_there, steps_used, step_at,
}
use backupsage.Diff.Visible.{IsAbsent, IsView, visible-IsView, view-IsAbsent}
use backupsage.Diff.Shown.{IsShown, IsShownChange, removed_shown, added_shown, matched_shown}

module _ (old new : Snapshot) (r : DiffReport) (run : Run old new r) where
  abbrev c : Sides
  c = sides_of old new run.left run.right run.before_hashes run.after_hashes

  abbrev Shown : Change → Type 0
  Shown = IsShownChange old new

  left-IsView : IsView old run.left
  left-IsView = visible-IsView old run.left run.left_eq

  right-IsView : IsView new run.right
  right-IsView = visible-IsView new run.right run.right_eq

  moved-Shown :
      (a b : Entry)
      → Memᴰ a old.entries
      → IsAbsent a.path new
      → moved_to c a ≡ some b
      → Shown (moved_or_gone c a (some b)).0
  unfolding change
  moved-Shown a b there gone h =
      let (hash, x, t, both, size, at_x, at_b, sizes, free, unclear) = moved_to_checks c a b h in
      let (s, only, all_old) = unique_hashes-only old run.before_hashes hash x run.before_eq at_x in
      let (s', only', all_new) = unique_hashes-only new run.after_hashes hash b run.after_eq at_b in
      let same = only_one hash old a x there (has_of_hash hash a t) only in
      let (there', has) = only_there hash new b only' in
      (
        hash,
        a,
        b,
        (there, there', refl, refl),
        both,
        (t, hash_of_has hash b has, sizes),
        size,
        (s, only ∙ ap (λ e. e ∷ []) (sym same), all_old),
        (s', only', all_new),
        gone,
        view-IsAbsent old run.left b.path left-IsView free unclear,
      )

  gone-Shown :
      (a : Entry) (o : Option Entry)
      → Memᴰ a old.entries
      → IsAbsent a.path new
      → moved_to c a ≡ o
      → Shown (moved_or_gone c a o).0
  gone-Shown a none there gone h = removed_shown old new a there gone
  gone-Shown a (some b) there gone h = moved-Shown a b there gone h

  left-Shown :
      (e : Bytes × Entry) → (e.1.path ≡ e.0) × Memᴰ e.1 old.entries → Shown (left_step c e).0
  unfolding left_step change
  left-Shown (path, a) (named, there) = elim (Option-cases (lookup path c.right)) [
    | inr (b, l) ↦
        let (named', there') =
          All-lookup (λ (x : Bytes × Entry). (x.1.path ≡ x.0) × Memᴰ x.1 new.entries) run.right path
            b right-IsView.named l in
        rw (l, left_step) (matched_shown old new c a b refl there there' (named ∙ sym named'))
    | inl n ↦
        rw (n, left_step)
          (elim (Bool-cases (could_hold c.right_u path)) [
            | inl y ↦ rw y tt
            | inr m ↦
                let gone =
                  subst (λ p. IsAbsent p new) (sym named)
                    (view-IsAbsent new run.right path right-IsView n m) in
                rw m (gone-Shown a (moved_to c a) there gone refl)
          ])
  ]

  -- An entry that no step used has a path that the earlier snapshot's view lacks.
  fresh-free :
      (b : Entry)
      → lookup b.path run.right ≡ some b
      → unused (used_ids (map (left_step c) run.left)) b ≡ true
      → lookup b.path run.left ≡ none
  fresh-free b at free = elim (Option-cases (lookup b.path run.left)) [
    | inl n ↦ n
    | inr (a, l) ↦
        let used =
          All-lookup
            (λ (x : Bytes × Entry).
              (id : ℤ)
              → (left_step c x).1 ≡ some id
              → any (eqb id) (used_ids (map (left_step c) run.left)) ≡ true)
            run.left b.path a (steps_used c run.left) l b.file_id (step_at c b.path a b at) in
        ground (arith, used, free)
  ]

  right-Shown :
      (b : Entry) → Memᴰ b new.entries → lookup b.path run.left ≡ none → Shown (right_step c b)
  unfolding right_step change
  right-Shown b there free = elim (Bool-cases (could_hold c.left_u b.path)) [
    | inl y ↦ rw y tt
    | inr m ↦
        rw m (added_shown old new b there (view-IsAbsent old run.left b.path left-IsView free m))
  ]

  -- The entries of the later snapshot's view, each under its path.
  right-values :
      All (λ b. Memᴰ b new.entries × (lookup b.path run.right ≡ some b)) (values run.right)
  right-values =
      All-map (λ b. Memᴰ b new.entries × (lookup b.path run.right ≡ some b))
        (λ (x : Bytes × Entry). x.1) run.right
        (All-imp (λ x ((named, there), at). (there, ap (λ p. lookup p run.right) named ∙ at))
          run.right
          (All-and _ _ run.right right-IsView.named (lookup-All run.right right-IsView.sorted)))

  changes-Shown : All Shown (changes_of c old.entries new.entries)
  unfolding changes_of change
  changes-Shown =
      let steps = map (left_step c) c.left in
      let is_fresh = unused (used_ids steps) in
      let fresh = filter is_fresh (values c.right) in
      let olds = map lost_before (filter uncertain_name old.entries) in
      let news = map lost_after (filter uncertain_name new.entries) in
      let fresh_facts =
        All-and _ _ fresh
          (All-filter (λ b. Memᴰ b new.entries × (lookup b.path run.right ≡ some b)) is_fresh
            (values c.right) right-values)
          (filter-All is_fresh (values c.right)) in
      All-append Shown (map (λ (s : Step). s.0) steps) (map (right_step c) fresh ++ (olds ++ news))
        (All-map Shown (λ (s : Step). s.0) steps
          (All-map (λ (s : Step). Shown s.0) (left_step c) c.left
            (All-imp left-Shown c.left left-IsView.named)))
        (All-append Shown (map (right_step c) fresh) (olds ++ news)
          (All-map Shown (right_step c) fresh (
            All-imp (λ b ((there, at), free). right-Shown b there (fresh-free b at free)) fresh
              fresh_facts))
          (All-append Shown olds news
            (All-map Shown lost_before (filter uncertain_name old.entries)
              (All-of (λ e. tt) (filter uncertain_name old.entries)))
            (All-map Shown lost_after (filter uncertain_name new.entries)
              (All-of (λ e. tt) (filter uncertain_name new.entries)))))

-- Every change of a report is backed by entries of the snapshots as its kind promises. An addition
-- is of an entry of the later snapshot whose path no entry of the earlier one has, or may have where
-- its name is uncertain, and the earlier one is complete; a removal the other way round. A move is
-- of two entries with one trusted hash and one size, not zero, each the only one with that hash in
-- its snapshot, which is complete and has trusted hashes only, where neither path is in the other
-- snapshot. `byte_identical` is of two entries with one path and equal trusted hashes, sizes, times
-- and modes. All of these need compatible snapshots.
pub compare-IsShown :
    (old new : Snapshot) (r : DiffReport)
    → compare old new ≡ ok r
    → All (λ c. IsShown old new c c.kind) r.changes
unfolding report_of sort_changes
compare-IsShown old new r e =
    let run = compare-Run old new r e in
    subst (λ x. All (IsShownChange old new) x.changes) (sym run.is_report)
      (subst (All (IsShownChange old new)) (sym run.changes_eq)
        (All-sort_by change_key (IsShownChange old new) _ (changes-Shown old new r run)))
