-- ===== src/Plan/Conflicts.antt =====
-- src/core/plan.rs: `canonicalize_conflicts`.
use backupsage.Base.{
  ℕ, zero, suc, ◌+◌, ◌%◌, ◌^◌, Option, none, some, List, [], ◌∷◌, ◌++◌, map, Result, ok, err, ◌>>=◌,
}
use backupsage.Base.Int.{ℤ}
use backupsage.Base.Order.{nat_ord, int_ord, list_ord, pair_ord}
use backupsage.Base.SortedMap.{SortedMap, upsert, values}
use backupsage.Base.Sort.{sort_by}
use backupsage.Coverage.{Bytes}
use backupsage.Plan.Types.{
  SourceRef, DestPath, EntryKey, Conflict, unsuffixed, suffixed, Op, mkdir, move, extract, Action,
  Plan,
}
use backupsage.Plan.Hex.{PlanError, op_without_conflict, op_without_dest, join_parts}
use backupsage.Plan.Suffix.{base_components, suffix_last_component}
use backupsage.Plan.Ids.{entry_key}

-- `phase1_key`
unfoldable pub phase1_key : SourceRef → Result PlanError (ℕ × (Bytes × ℤ))
phase1_key s = do path ← join_parts s.parts_raw; ok (s.root_id, (path, s.file_id))

-- The local `Entry`, with the key of the source that the code looks up again.
pub record Entry : Type 0 where
  pub action_idx : ℕ
  pub dest_root : ℕ
  pub base_parts : List Bytes
  pub rank_key : ℕ × (Bytes × ℤ)
  pub source_key : EntryKey

abbrev pub entry_for : ℕ → SourceRef → DestPath → Conflict → Result PlanError (Option Entry)
entry_for i s dest prior = do
  base ← base_components dest.parts_raw prior
  key ← phase1_key s
  ok (
      some (record {
        action_idx = i;
        dest_root = dest.root_id;
        base_parts = base;
        rank_key = key;
        source_key = entry_key s;
      }))

unfoldable pub entry_of : ℕ → Op → Result PlanError (Option Entry)
entry_of i (mkdir dest) = ok none
entry_of i (move s dest c) = entry_for i s dest c
entry_of i (extract s dest c) = entry_for i s dest c
entry_of i (Op.quarantine s dest g t) = ok none

abbrev pub put_first : Option Entry → List Entry → List Entry
put_first none es = es
put_first (some e) es = e ∷ es

unfoldable pub entries_from : ℕ → List Action → Result PlanError (List Entry)
entries_from i [] = ok []
entries_from i (a ∷ actions) = do
  e ← entry_of i a.op
  es ← entries_from (i + 1) actions
  ok (put_first e es)

abbrev pub push : Entry → Option (List Entry) → List Entry
push e none = e ∷ []
push e (some es) = es ++ e ∷ []

abbrev pub Collisions : Type 0
Collisions = SortedMap (ℕ × List Bytes) (List Entry)

-- The entries by destination root and base.
unfoldable pub collide : Collisions → List Entry → Collisions
unfolding nat_ord list_ord pair_ord
collide m [] = m
collide m (e ∷ es) = collide (upsert (e.dest_root, e.base_parts) (push e) m) es

unfoldable pub by_rank : List Entry → List Entry
unfolding nat_ord int_ord list_ord pair_ord
by_rank = sort_by (λ (e : Entry). e.rank_key)

unfoldable pub sort_keys : List EntryKey → List EntryKey
unfolding nat_ord int_ord pair_ord
sort_keys = sort_by {K = ℕ × ℤ} (λ (k : EntryKey). k)

unfoldable pub set_conflict : Conflict → Op → Result PlanError Op
set_conflict c (mkdir dest) = err op_without_conflict
set_conflict c (move s dest _) = ok (move s dest c)
set_conflict c (extract s dest _) = ok (extract s dest c)
set_conflict c (Op.quarantine s dest g t) = err op_without_conflict

unfoldable pub set_dest_parts : List Bytes → Op → Result PlanError Op
set_dest_parts parts (mkdir dest) = err op_without_dest
set_dest_parts parts (move s dest c) = ok (move s (record dest { parts_raw = parts }) c)
set_dest_parts parts (extract s dest c) = ok (extract s (record dest { parts_raw = parts }) c)
set_dest_parts parts (Op.quarantine s dest g t) = err op_without_dest

-- `self.actions[i].op` changed. The indices come from the list, so they are in range.
unfoldable pub change_op :
    (Op → Result PlanError Op) → ℕ → List Action → Result PlanError (List Action)
change_op f i [] = ok []
change_op f zero (a ∷ actions) = f a.op >>= λ op. ok (record a { op = op } ∷ actions)
change_op f (suc i) (a ∷ actions) = change_op f i actions >>= λ rest. ok (a ∷ rest)

abbrev pub ranked_parts : ℕ → List Bytes → Result PlanError (List Bytes)
ranked_parts zero base = ok base
ranked_parts (suc n) base = suffix_last_component base (suc n)

-- The loop that numbers the members of a collision.
unfoldable pub assign_ranks :
    ℕ → List EntryKey → List Entry → List Action → Result PlanError (List Action)
assign_ranks rank competing [] actions = ok actions
assign_ranks rank competing (e ∷ es) actions = do
  parts ← ranked_parts (rank % 2 ^ 32) e.base_parts
  changed ← change_op (set_dest_parts parts) e.action_idx actions
  marked ← change_op (set_conflict (suffixed (rank % 2 ^ 32) competing)) e.action_idx changed
  assign_ranks (rank + 1) competing es marked

unfoldable pub resolve : List Entry → List Action → Result PlanError (List Action)
resolve [] actions = ok actions
resolve (e ∷ []) actions = change_op (set_conflict unsuffixed) e.action_idx actions
resolve (e ∷ d ∷ es) actions =
    assign_ranks 0 (sort_keys (map (λ (x : Entry). x.source_key) (e ∷ d ∷ es))) (e ∷ d ∷ es) actions

unfoldable pub resolve_all : List (List Entry) → List Action → Result PlanError (List Action)
resolve_all [] actions = ok actions
resolve_all (g ∷ groups) actions =
    resolve (by_rank g) actions >>= λ changed. resolve_all groups changed

unfoldable pub canonicalize_conflicts : Plan → Result PlanError Plan
canonicalize_conflicts p = do
  entries ← entries_from 0 p.actions
  actions ← resolve_all (values (collide [] entries)) p.actions
  ok (record p { actions = actions })
