-- ===== src/DiffInput/Inference.antt =====
-- src/core/diff_input.rs: the report on move inference says what the comparison of src/core/diff.rs needs.
use mathlib.Core.Path.{ap₂}
use backupsage.Base.{
  any, All, All-imp, subst, ok, ◌≡◌, refl, ◌∙◌, arith, ℕ, Bool, true, false, not, ◌&&◌, Option,
  none, some, is_some, List, [], ◌∷◌, ◌++◌, map, all,
}
use backupsage.Base.Order.{nat_ord}
use backupsage.Base.SortedMap.{upsert}
use backupsage.Store.Bits.{has_either}
use backupsage.Diff.{Entry, Snapshot, is_complete, trusted_hash}
use backupsage.Diff
use backupsage.DiffInput
use backupsage.Diff.{DiffReport, compare, moved, complete}
use backupsage.Diff.Shown.{IsShown}
use backupsage.Diff.Evidence.{compare-IsShown}

-- A file's row is without a blocker exactly where its hash can be trusted.
row_blocker-trusted :
    (e : Entry) → is_some (DiffInput.row_blocker e) ≡ not (is_some (trusted_hash e))
unfolding DiffInput.row_blocker trusted_hash
row_blocker-trusted e = ground (arith, has_either e.flags)

abbrev is_nil : DiffInput.Counts → Bool
is_nil [] = true
is_nil (_ ∷ _) = false

count_option-nil :
    (o : Option DiffInput.MoveBlockerCause) (counts : DiffInput.Counts)
    → is_nil (DiffInput.count_option o counts) ≡ (is_nil counts && not (is_some o))
unfolding upsert
count_option-nil none [] = refl
count_option-nil none (x ∷ counts) = refl
count_option-nil (some cause) [] = refl
count_option-nil (some cause) (x ∷ counts) = ground arith

count_blockers-nil :
    (counts : DiffInput.Counts) (entries : List Entry)
    → is_nil (DiffInput.count_blockers counts entries)
      ≡ (is_nil counts && all (λ e. is_some (trusted_hash e)) entries)
unfolding DiffInput.count_blockers
count_blockers-nil counts [] = ground arith
count_blockers-nil counts (e ∷ entries) =
    count_blockers-nil (DiffInput.count_option (DiffInput.row_blocker e) counts) entries
    ∙ ground (arith, count_option-nil (DiffInput.row_blocker e) counts, row_blocker-trusted e)

-- What a side must have: it is complete, and every row has a trusted hash.
abbrev pub is_ready : Snapshot → Bool
is_ready s = is_complete s.info.state && all (λ e. is_some (trusted_hash e)) s.entries

has_none-append :
    (xs ys : List DiffInput.MoveBlocker)
    → DiffInput.has_none (xs ++ ys) ≡ (DiffInput.has_none xs && DiffInput.has_none ys)
has_none-append [] ys = refl
has_none-append (x ∷ xs) ys = refl

has_none-map :
    (f : ℕ × (DiffInput.MoveBlockerCause × ℕ) → DiffInput.MoveBlocker) (counts : DiffInput.Counts)
    → DiffInput.has_none (map f counts) ≡ is_nil counts
has_none-map f [] = refl
has_none-map f (x ∷ counts) = refl

whole_blockers-none :
    (side : Diff.Side) (state : Diff.SnapshotState)
    → DiffInput.has_none (DiffInput.whole_blockers side (DiffInput.whole_blocker state))
      ≡ is_complete state
whole_blockers-none side Diff.complete = refl
whole_blockers-none side Diff.incomplete = refl
whole_blockers-none side Diff.unavailable = refl
whole_blockers-none side Diff.incompatible = refl

side_blockers-none :
    (side : Diff.Side) (s : Snapshot)
    → DiffInput.has_none (DiffInput.side_blockers side s) ≡ is_ready s
unfolding DiffInput.side_blockers
side_blockers-none side s =
    let counts = DiffInput.count_blockers [] s.entries in
    has_none-append (DiffInput.whole_blockers side (DiffInput.whole_blocker s.info.state)) _
    ∙ ap₂ ◌&&◌ (whole_blockers-none side s.info.state)
        (has_none-map _ counts ∙ count_blockers-nil [] s.entries)

-- Move inference is reported as enabled exactly when both snapshots are complete and every row of
-- both has a hash that the comparison trusts.
pub enabled_iff :
    (old new : Snapshot) → (DiffInput.inference_of old new).enabled ≡ (is_ready old && is_ready new)
unfolding DiffInput.inference_of
enabled_iff old new =
    has_none-append (DiffInput.side_blockers Diff.before old)
      (DiffInput.side_blockers Diff.after new)
    ∙ ap₂ ◌&&◌ (side_blockers-none Diff.before old) (side_blockers-none Diff.after new)

any-all : (p : Entry → Bool) (es : List Entry) → any (λ e. not (p e)) es ≡ not (all p es)
any-all p [] = refl
any-all p (e ∷ es) = ground (arith, any-all p es)

-- A comparison that reports a move had move inference reported as enabled.
pub moved_needs_enabled :
    (old new : Snapshot) (r : DiffReport)
    → compare old new ≡ ok r
    → All (λ c. c.kind ≡ moved → (DiffInput.inference_of old new).enabled ≡ true) r.changes
moved_needs_enabled old new r e =
    All-imp
      (λ c shown is_moved.
        let (hash, a, b, _, _, _, _, in_old, in_new, _, _) =
          subst (IsShown old new c) is_moved shown in
        enabled_iff old new
        ∙ ground (
          arith,
          in_old.0,
          in_old.2,
          in_new.0,
          in_new.2,
          any-all (λ y. is_some (trusted_hash y)) old.entries,
          any-all (λ y. is_some (trusted_hash y)) new.entries,
        ))
      r.changes (compare-IsShown old new r e)
