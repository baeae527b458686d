-- ===== src/Plan/Roots.antt =====
-- src/core/plan.rs: `canonicalize_roots`.
use backupsage.Base.{
  ℕ, ◌+◌, ◌%◌, ◌^◌, Bool, not, ◌&&◌, Option, none, some, is_some, List, [], ◌∷◌, map, all, Result,
  ok, ◌>>=◌, ◌>>◌, bail_if, traverse,
}
use backupsage.Base.Order.{nat_ord, list_ord, pair_ord}
use backupsage.Base.SortedMap.{SortedMap, lookup, upsert}
use backupsage.Base.Sort.{sort_by}
use backupsage.Coverage.{Bytes}
use backupsage.Plan.Types.{
  RootRole, Root, SourceRef, DestPath, Op, mkdir, move, extract, Action, Group, GroupMember,
  Excluded, Plan,
}
use backupsage.Plan.Hex.{PlanError, duplicate_root_id, unknown_root_id, unhex, lossy_join_hex}

-- The set of the roots' ids; a repeated id fails.
unfoldable pub collect_ids :
    SortedMap ℕ (Unit {0}) → List Root → Result PlanError (SortedMap ℕ (Unit {0}))
collect_ids ids [] = ok ids
collect_ids ids (r ∷ roots) = do
  bail_if (is_some (lookup r.root_id ids)) duplicate_root_id
  collect_ids (upsert r.root_id (λ _. tt) ids) roots

-- `referenced_root_ids`
unfoldable pub referenced_root_ids : Op → List ℕ
referenced_root_ids (mkdir dest) = dest.root_id ∷ []
referenced_root_ids (move s dest _) = s.root_id ∷ dest.root_id ∷ []
referenced_root_ids (extract s dest _) = s.root_id ∷ dest.root_id ∷ []
referenced_root_ids (Op.quarantine s dest _ _) = s.root_id ∷ dest.root_id ∷ []

abbrev pub is_known : SortedMap ℕ (Unit {0}) → ℕ → Bool
is_known ids id = is_some (lookup id ids)

abbrev pub knows_action : SortedMap ℕ (Unit {0}) → Action → Bool
knows_action ids a = all (is_known ids) (referenced_root_ids a.op)

abbrev pub knows_group : SortedMap ℕ (Unit {0}) → Group → Bool
knows_group ids g =
    is_known ids g.keeper.entry.root_id
    && all (λ (m : GroupMember). is_known ids m.entry.root_id) g.members

-- Every `root_id` of the document is one of a root.
unfoldable pub check_references : SortedMap ℕ (Unit {0}) → Plan → Result PlanError (Unit {0})
check_references ids p = do
  bail_if (not (all (knows_action ids) p.actions)) unknown_root_id
  bail_if (not (all (knows_group ids) p.groups)) unknown_root_id
  bail_if (not (all (λ (e : Excluded). is_known ids e.root_id) p.excluded)) unknown_root_id

abbrev pub role_rank : RootRole → ℕ
role_rank RootRole.source = 0
role_rank RootRole.destination = 1
role_rank RootRole.quarantine = 2

-- A root with its decoded path. The code's maps from an id to its root and its role are read only
-- at the ids they were built from.
unfoldable pub decode_root : Root → Result PlanError (Bytes × Root)
decode_root r = do path ← unhex r.path_raw; ok (path, r)

abbrev pub root_key : Bytes × Root → ℕ × Bytes
root_key (path, r) = (role_rank r.role, path)

unfoldable pub sort_roots : List (Bytes × Root) → List (Bytes × Root)
unfolding nat_ord list_ord pair_ord
sort_roots = sort_by root_key

-- `remap`, from the old ids to the positions in the sorted list.
unfoldable pub remap_from : ℕ → SortedMap ℕ ℕ → List (Bytes × Root) → SortedMap ℕ ℕ
remap_from new_id m [] = m
remap_from new_id m ((_, r) ∷ roots) =
    remap_from (new_id + 1) (upsert r.root_id (λ _. new_id % 2 ^ 32) m) roots

unfoldable pub number_roots : ℕ → List (Bytes × Root) → Result PlanError (List Root)
number_roots new_id [] = ok []
number_roots new_id ((_, r) ∷ roots) = do
  display ← lossy_join_hex r.path_raw
  rest ← number_roots (new_id + 1) roots
  ok (record r { root_id = new_id % 2 ^ 32; path_display = display } ∷ rest)

abbrev pub or_same : ℕ → Option ℕ → ℕ
or_same old none = old
or_same old (some new) = new

-- `remap_id`
unfoldable pub remap_id : SortedMap ℕ ℕ → ℕ → ℕ
remap_id m old = or_same old (lookup old m)

abbrev pub remap_source : SortedMap ℕ ℕ → SourceRef → SourceRef
remap_source m s = record s { root_id = remap_id m s.root_id }

abbrev pub remap_dest : SortedMap ℕ ℕ → DestPath → DestPath
remap_dest m d = record d { root_id = remap_id m d.root_id }

-- `remap_op_root_ids`
unfoldable pub remap_op : SortedMap ℕ ℕ → Op → Op
remap_op m (mkdir dest) = mkdir (remap_dest m dest)
remap_op m (move s dest c) = move (remap_source m s) (remap_dest m dest) c
remap_op m (extract s dest c) = extract (remap_source m s) (remap_dest m dest) c
remap_op m (Op.quarantine s dest g t) = Op.quarantine (remap_source m s) (remap_dest m dest) g t

abbrev pub remap_member : SortedMap ℕ ℕ → GroupMember → GroupMember
remap_member m x = record x { entry = remap_source m x.entry }

abbrev pub remap_group : SortedMap ℕ ℕ → Group → Group
remap_group m g = record g {
  keeper = record (g.keeper) { entry = remap_source m g.keeper.entry };
  members = map (remap_member m) g.members;
}

unfoldable pub remap_plan : SortedMap ℕ ℕ → List Root → Plan → Plan
remap_plan m roots p = record p {
  roots = roots;
  actions = map (λ (a : Action). record a { op = remap_op m a.op }) p.actions;
  groups = map (remap_group m) p.groups;
  excluded = map (λ (e : Excluded). record e { root_id = remap_id m e.root_id }) p.excluded;
}

unfoldable pub canonicalize_roots : Plan → Result PlanError Plan
canonicalize_roots p = do
  ids ← collect_ids [] p.roots
  check_references ids p
  indexed ← traverse decode_root p.roots
  roots ← number_roots 0 (sort_roots indexed)
  ok (remap_plan (remap_from 0 [] (sort_roots indexed)) roots p)
