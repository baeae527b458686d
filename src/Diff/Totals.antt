-- ===== src/Diff/Totals.antt =====
-- src/core/diff.rs: what the summary and the state of a comparison say of its changes.
use mathlib.Core.Path.{◌≡◌, refl, sym, subst}
use mathlib.Core.Logic.{◌↔◌}
use native.Mathlib.Omega.{arith}
use backupsage.Base.{ℕ, ◌+◌, Bool, true, false, List, [], ◌∷◌, length, count, if◌then◌else◌, ok}
use backupsage.Diff.Types.{
  SnapshotState, complete, Snapshot, ChangeKind, added, removed, moved, byte_identical,
  metadata_only_changed, content_changed, inconclusive, Change, Summary, DiffReport,
}
use backupsage.Diff.Report.{
  compare, report_of, summarise, note_kind, no_changes, comparison_state_of, both_compatible,
}
use backupsage.Diff.Runs.{compare-Run}

abbrev pub same_kind : ChangeKind → ChangeKind → Bool
same_kind added added = true
same_kind removed removed = true
same_kind moved moved = true
same_kind byte_identical byte_identical = true
same_kind metadata_only_changed metadata_only_changed = true
same_kind content_changed content_changed = true
same_kind inconclusive inconclusive = true
same_kind _ _ = false

-- The field of the summary that stands for a kind of change.
abbrev pub counter : ChangeKind → Summary → ℕ
counter added s = s.added
counter removed s = s.removed
counter moved s = s.moved
counter byte_identical s = s.byte_identical
counter metadata_only_changed s = s.metadata_only_changed
counter content_changed s = s.content_changed
counter inconclusive s = s.inconclusive

counter-note_kind :
    (k j : ChangeKind) (s : Summary)
    → counter k (note_kind j s) ≡ counter k s + (if same_kind k j then 1 else 0)
counter-note_kind k j s = ground arith

counter-summarise :
    (k : ChangeKind) (s : Summary) (changes : List Change)
    → counter k (summarise s changes) ≡ counter k s + count (λ c. same_kind k c.kind) changes
unfolding summarise
counter-summarise k s [] = omega arith
counter-summarise k s (c ∷ changes) =
    ground (arith, counter-summarise k (note_kind c.kind s) changes, counter-note_kind k c.kind s)

excluded-note_kind : (k : ChangeKind) (s : Summary) → (note_kind k s).excluded ≡ s.excluded
excluded-note_kind k s = ground arith

excluded-summarise :
    (s : Summary) (changes : List Change) → (summarise s changes).excluded ≡ s.excluded
unfolding summarise
excluded-summarise s [] = refl
excluded-summarise s (c ∷ changes) =
    ground (arith, excluded-summarise (note_kind c.kind s) changes, excluded-note_kind c.kind s)

-- For every comparison that gives a report, and for every kind of change, the counter of the
-- summary is the number of reported changes of that kind, and `excluded` is the number of
-- reported exclusions.
pub summary_counts :
    (old new : Snapshot) (r : DiffReport) (k : ChangeKind)
    → compare old new ≡ ok r
    → (counter k r.summary ≡ count (λ c. same_kind k c.kind) r.changes)
      × (r.summary.excluded ≡ length r.excluded)
unfolding report_of
summary_counts old new r k e =
    let run = compare-Run old new r e in
    subst
      (λ x.
        (counter k x.summary ≡ count (λ c. same_kind k c.kind) x.changes)
        × (x.summary.excluded ≡ length x.excluded))
      (sym run.is_report)
      (
        counter-of_none k (length run.exclusions) run.changes,
        excluded-summarise (no_changes (length run.exclusions)) run.changes,
      )
  where
    counter-of_none :
        (k : ChangeKind) (n : ℕ) (changes : List Change)
        → counter k (summarise (no_changes n) changes) ≡ count (λ c. same_kind k c.kind) changes
    counter-of_none k n changes = ground (arith, counter-summarise k (no_changes n) changes)

state-complete :
    (a b : SnapshotState) (c : Bool) (n : ℕ)
    → (comparison_state_of a b c n ≡ complete)
      ↔ ((a ≡ complete) × (b ≡ complete) × (c ≡ true) × (n ≡ 0))
unfolding comparison_state_of
state-complete a b c n = ground arith

-- A comparison reports the state `complete` exactly when both snapshots are complete, they are
-- compatible, and no reported change is inconclusive.
pub compare_complete_iff :
    (old new : Snapshot) (r : DiffReport)
    → compare old new ≡ ok r
    → (r.comparison_state ≡ complete) ↔ (
        (old.info.state ≡ complete)
        × (new.info.state ≡ complete)
        × (both_compatible old new ≡ true)
        × (count (λ c. same_kind inconclusive c.kind) r.changes ≡ 0))
unfolding report_of
compare_complete_iff old new r e =
    let run = compare-Run old new r e in
    let counts = summary_counts old new r inconclusive e in
    rw (sym counts.0) (
      subst
        (λ x. (x.comparison_state ≡ complete) ↔ (
          (old.info.state ≡ complete)
          × (new.info.state ≡ complete)
          × (both_compatible old new ≡ true)
          × (x.summary.inconclusive ≡ 0)))
        (sym run.is_report)
        (state-complete old.info.state new.info.state (both_compatible old new) _))
