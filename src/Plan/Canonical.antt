-- ===== src/Plan/Canonical.antt =====
-- src/core/plan.rs: `canonicalize` and `verify_derived`.
use mathlib.Core.Path.{◌≡◌}
use backupsage.Base.{
  ℕ, ◌+◌, ◌%◌, ◌^◌, Bool, true, false, Option, none, some, List, [], ◌∷◌, ◌++◌, map, length, sum_by,
  if◌then◌else◌, Result, ok, err, ◌>>=◌, traverse,
}
use backupsage.Base.Int.{ℤ, pos}
use backupsage.Base.Order.{nat_ord, int_ord, list_ord, pair_ord}
use backupsage.Base.SortedMap.{SortedMap, upsert, keys}
use backupsage.Base.Sort.{sort_by}
use backupsage.Coverage.{Bytes}
use backupsage.Plan.Types.{
  SourceRef, DestPath, Op, mkdir, move, extract, Action, Disposition, GroupMember, Group, Excluded,
  Summary, Plan, Plan-discrete,
}
use backupsage.Plan.Hex.{PlanError, disagreeing_derived_fields, join_parts, join_parts_lossy}
use backupsage.Plan.Ids.{entry_key, tag, dest_of, compute_action_id, compute_group_id, compute_slot}
use backupsage.Plan.Roots.{canonicalize_roots}
use backupsage.Plan.Conflicts.{phase1_key, canonicalize_conflicts}

unfoldable pub display_source : SourceRef → Result PlanError SourceRef
display_source s = do display ← join_parts_lossy s.parts_raw; ok (record s { display = display })

unfoldable pub display_dest : DestPath → Result PlanError DestPath
display_dest d = do display ← join_parts_lossy d.parts_raw; ok (record d { display = display })

unfoldable pub display_op : Op → Result PlanError Op
display_op (mkdir dest) = do d ← display_dest dest; ok (mkdir d)
display_op (move s dest c) = do s' ← display_source s; d ← display_dest dest; ok (move s' d c)
display_op (extract s dest c) = do s' ← display_source s; d ← display_dest dest; ok (extract s' d c)
display_op (Op.quarantine s dest g t) = do
  s' ← display_source s
  d ← display_dest dest
  ok (Op.quarantine s' d g t)

abbrev pub display_action : Action → Result PlanError Action
display_action a = do op ← display_op a.op; ok (record a { op = op })

abbrev pub display_member : GroupMember → Result PlanError GroupMember
display_member m = do e ← display_source m.entry; ok (record m { entry = e })

unfoldable pub display_group : Group → Result PlanError Group
display_group g = do
  keeper ← display_source g.keeper.entry
  members ← traverse display_member g.members
  ok (record g { keeper = record (g.keeper) { entry = keeper }; members = members })

unfoldable pub display_excluded : Excluded → Result PlanError Excluded
display_excluded e = do display ← join_parts_lossy e.parts_raw; ok (record e { display = display })

unfoldable pub canonicalize_display_fields : Plan → Result PlanError Plan
canonicalize_display_fields p = do
  actions ← traverse display_action p.actions
  groups ← traverse display_group p.groups
  excluded ← traverse display_excluded p.excluded
  ok (record p { actions = actions; groups = groups; excluded = excluded })

unfoldable pub sort_members : List GroupMember → List GroupMember
unfolding nat_ord int_ord pair_ord
sort_members = sort_by {K = ℕ × ℤ} (λ (m : GroupMember). entry_key m.entry)

abbrev pub is_quarantine : Disposition → Bool
is_quarantine Disposition.keep = false
is_quarantine Disposition.quarantine = true
is_quarantine Disposition.leave = false

-- The roots of the members that stay.
unfoldable pub staying_roots : SortedMap ℕ (Unit {0}) → List GroupMember → SortedMap ℕ (Unit {0})
staying_roots ids [] = ids
staying_roots ids (m ∷ members) =
    staying_roots
      (if is_quarantine m.disposition then ids else upsert m.entry.root_id (λ _. tt) ids) members

unfoldable pub remaining_after : Group → ℕ
remaining_after g = length (staying_roots ((g.keeper.entry.root_id, tt) ∷ []) g.members) % 2 ^ 32

unfoldable pub sort_groups : List Group → List Group
unfolding nat_ord int_ord pair_ord
sort_groups = sort_by {K = ℕ × ℤ} (λ (g : Group). entry_key g.keeper.entry)

unfoldable pub sort_excluded : List Excluded → List Excluded
unfolding nat_ord int_ord pair_ord
sort_excluded = sort_by {K = ℕ × ℤ} (λ (e : Excluded). (e.root_id, e.file_id))

-- The key of an action: its phase, and its place in the phase.
abbrev pub SortKey : Type 0
SortKey = ℕ × (ℕ × (Bytes × ℤ))

unfoldable pub action_sort_key : Op → Result PlanError SortKey
action_sort_key (mkdir dest) = do
  path ← join_parts dest.parts_raw
  ok (0, (dest.root_id, (path, pos 0)))
action_sort_key (move s dest c) = do key ← phase1_key s; ok (1, key)
action_sort_key (extract s dest c) = ok (1, (s.root_id, ([], s.file_id)))
action_sort_key (Op.quarantine s dest group_id slot) = do
  path ← join_parts s.parts_raw
  ok (1, (s.root_id, (group_id ++ path, s.file_id)))

-- The code computes the keys inside the comparison, where a bad one is a panic; by then every
-- path has been decoded.
unfoldable pub keyed : Action → Result PlanError (SortKey × Action)
keyed a = do key ← action_sort_key a.op; ok (key, a)

unfoldable pub sort_keyed : List (SortKey × Action) → List (SortKey × Action)
unfolding nat_ord int_ord list_ord pair_ord
sort_keyed = sort_by {K = SortKey} (λ (x : SortKey × Action). x.0)

unfoldable pub number_actions : ℕ → List (SortKey × Action) → List Action
number_actions i [] = []
number_actions i ((_, a) ∷ actions) =
    record a { ordinal = i % 2 ^ 32 } ∷ number_actions (i + 1) actions

abbrev count_one : Option ℕ → ℕ
count_one none = 1
count_one (some n) = (n + 1) % 2 ^ 32

unfoldable pub count_ops : SortedMap Bytes ℕ → List Action → SortedMap Bytes ℕ
unfolding nat_ord list_ord
count_ops m [] = m
count_ops m (a ∷ actions) = count_ops (upsert (tag a.op) count_one m) actions

abbrev pub source_of : Op → Option SourceRef
source_of (mkdir dest) = none
source_of (move s dest _) = some s
source_of (extract s dest _) = some s
source_of (Op.quarantine s dest g t) = some s

abbrev pub size_of : Option SourceRef → ℕ
size_of none = 0
size_of (some s) = s.size

unfoldable pub written_roots : SortedMap ℕ (Unit {0}) → List Action → SortedMap ℕ (Unit {0})
written_roots ids [] = ids
written_roots ids (a ∷ actions) =
    written_roots (upsert (dest_of a.op).root_id (λ _. tt) ids) actions

unfoldable pub recompute_summary : Plan → Summary
recompute_summary p = record {
  actions_total = length p.actions % 2 ^ 32;
  actions_by_op =
      map (λ (x : Bytes × ℕ). record { op = x.0; count = x.1 }) (count_ops [] p.actions);
  bytes_affected = sum_by (λ (a : Action). size_of (source_of a.op)) p.actions % 2 ^ 64;
  groups_total = length p.groups % 2 ^ 32;
  excluded_total = length p.excluded % 2 ^ 32;
  excluded_bytes = sum_by (λ (e : Excluded). e.size) p.excluded % 2 ^ 64;
  roots_written = keys (written_roots [] p.actions);
}

module _ (blake3 : Bytes → Bytes) where
  unfoldable pub finish_group : Group → Group
  finish_group g = record g {
    group_id = compute_group_id blake3 g;
    replica_floor = record (g.replica_floor) { remaining_after = remaining_after g };
  }

  unfoldable pub canonicalize_groups : Plan → Plan
  canonicalize_groups p = record p {
    groups =
        map finish_group (
          sort_groups
            (map (λ (g : Group). record g { members = sort_members g.members }) p.groups));
  }

  unfoldable pub derive_slot : Op → Op
  derive_slot (mkdir dest) = mkdir dest
  derive_slot (move s dest c) = move s dest c
  derive_slot (extract s dest c) = extract s dest c
  derive_slot (Op.quarantine s dest g t) = Op.quarantine s dest g (compute_slot blake3 g s)

  unfoldable pub derive_id : Action → Result PlanError Action
  derive_id a = do id ← compute_action_id blake3 a.op; ok (record a { action_id = id })

  unfoldable pub canonicalize_actions : Plan → Result PlanError Plan
  canonicalize_actions p = do
    with_keys ← traverse keyed (map (λ (a : Action). record a { op = derive_slot a.op }) p.actions)
    actions ← traverse derive_id (number_actions 0 (sort_keyed with_keys))
    ok (record p { actions = actions })

  unfoldable pub finish_summary : Plan → Plan
  finish_summary p =
      let sorted : Plan = record p { excluded = sort_excluded p.excluded } in
      record sorted { summary = recompute_summary sorted }

  unfoldable pub canonicalize : Plan → Result PlanError Plan
  canonicalize p = do
    p₁ ← canonicalize_roots p
    p₂ ← canonicalize_conflicts p₁
    p₃ ← canonicalize_display_fields p₂
    p₄ ← canonicalize_actions (canonicalize_groups p₃)
    ok (finish_summary p₄)

  abbrev pub refuse_unless : {P : Plan} {Q : Plan} → Dec (P ≡ Q) → Result PlanError (Unit {0})
  refuse_unless (yes _) = ok tt
  refuse_unless (no _) = err disagreeing_derived_fields

  unfoldable pub verify_derived : Plan → Result PlanError (Unit {0})
  verify_derived p = do c ← canonicalize p; refuse_unless (Plan-discrete c p)
