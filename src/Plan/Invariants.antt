-- ===== src/Plan/Invariants.antt =====
-- src/core/plan.rs: `invariants_hold`.
use backupsage.Base.{
  ℕ, ◌==◌, ltb, Bool, true, false, not, ◌&&◌, ◌||◌, Option, none, some, is_some, List, [], ◌∷◌,
  length, if◌then◌else◌, Result, ok, err, ◌>>=◌, ◌>>◌, bail_if,
}
use backupsage.Base.Order.{eqb, nat_ord, int_ord, list_ord, pair_ord}
use backupsage.Base.SortedMap.{SortedMap, lookup, upsert}
use backupsage.Coverage.{Bytes}
use backupsage.Plan.Types.{
  PlanKind, organize, dedup, RootRole, SourceType, tar, dir, Fingerprint, archive_blake3,
  no_fingerprint, SourceBinding, Root, SourceRef, EntryKey, Op, mkdir, move, extract, Action,
  GroupMember, Group, Plan,
}
use backupsage.Plan.Hex.{
  PlanError, validate_components, is_lowercase_hex, join_parts, unknown_root_id, shared_path_raw,
  source_without_binding, binding_on_non_source, dir_with_archive_fingerprint,
  tar_without_fingerprint, groups_on_non_dedup_plan, duplicate_destination, malformed_content_hash,
  duplicate_source, illegal_op, source_root_not_tar, source_root_not_dir, unknown_group_id,
  not_a_member, member_not_quarantined, member_not_actionable, dest_is_planned_source,
  replica_floor_broken,
}
use backupsage.Plan.Ids.{entry_key, dest_of}
use backupsage.Plan.Canonical.{source_of, is_quarantine}

unfoldable pub check_binding : RootRole → Option SourceBinding → Result PlanError (Unit {0})
check_binding RootRole.source (some b) = ok tt
check_binding RootRole.source none = err source_without_binding
check_binding RootRole.destination (some b) = err binding_on_non_source
check_binding RootRole.destination none = ok tt
check_binding RootRole.quarantine (some b) = err binding_on_non_source
check_binding RootRole.quarantine none = ok tt

unfoldable pub check_fingerprint : SourceType → Fingerprint → Result PlanError (Unit {0})
check_fingerprint dir (archive_blake3 value size mtime) = err dir_with_archive_fingerprint
check_fingerprint dir (no_fingerprint reason) = ok tt
check_fingerprint tar (archive_blake3 value size mtime) = ok tt
check_fingerprint tar (no_fingerprint reason) = err tar_without_fingerprint

abbrev pub check_source : Option SourceBinding → Result PlanError (Unit {0})
check_source none = ok tt
check_source (some b) = check_fingerprint b.source_type b.fingerprint

unfoldable pub check_roots : SortedMap Bytes (Unit {0}) → List Root → Result PlanError (Unit {0})
check_roots seen [] = ok tt
check_roots seen (r ∷ roots) = do
  bail_if (is_some (lookup r.path_raw seen)) shared_path_raw
  check_binding r.role r.source
  check_source r.source
  check_roots (upsert r.path_raw (λ _. tt) seen) roots

-- The first root with an id.
unfoldable pub find_root : ℕ → List Root → Option Root
find_root id [] = none
find_root id (r ∷ roots) = if r.root_id == id then some r else find_root id roots

unfoldable pub check_root : List Root → ℕ → Result PlanError (Unit {0})
check_root roots id = bail_if (not (is_some (find_root id roots))) unknown_root_id

abbrev pub DestKey : Type 0
DestKey = ℕ × Bytes

-- The sets that the loop over the actions fills.
pub record Seen : Type 0 where
  pub source_keys : SortedMap EntryKey (Unit {0})
  pub dest_keys : SortedMap DestKey (Unit {0})
  pub organize_source_paths : SortedMap DestKey (Unit {0})

abbrev pub nothing_seen : Seen
nothing_seen = record { source_keys = []; dest_keys = []; organize_source_paths = [] }

abbrev pub is_mkdir : Op → Bool
is_mkdir (mkdir dest) = true
is_mkdir (move s dest c) = false
is_mkdir (extract s dest c) = false
is_mkdir (Op.quarantine s dest g t) = false

unfoldable pub see_dest : Op → DestKey → Seen → Result PlanError Seen
see_dest op key seen =
    if is_mkdir op
    then ok seen
    else if is_some (lookup key seen.dest_keys)
    then err duplicate_destination
    else ok (record seen { dest_keys = upsert key (λ _. tt) seen.dest_keys })

unfoldable pub check_dest : List Root → Op → Seen → Result PlanError Seen
check_dest roots op seen = do
  check_root roots (dest_of op).root_id
  validate_components (dest_of op).parts_raw
  path ← join_parts (dest_of op).parts_raw
  see_dest op ((dest_of op).root_id, path) seen

-- "b3:" and 64 digits.
abbrev pub prefix_b3 : Bytes → Bool
prefix_b3 (a ∷ b ∷ c ∷ rest) = a == b'b' && (b == b'3' && c == b':')
prefix_b3 _ = false

abbrev pub after_prefix : Bytes → Bytes
after_prefix (a ∷ b ∷ c ∷ rest) = rest
after_prefix _ = []

unfoldable pub check_content_hash : Bytes → Result PlanError (Unit {0})
check_content_hash h = do
  bail_if (not (prefix_b3 h) || not (length h == 67)) malformed_content_hash
  bail_if (not (is_lowercase_hex (after_prefix h))) malformed_content_hash

abbrev pub is_organize : PlanKind → Bool
is_organize organize = true
is_organize PlanKind.extract = false
is_organize dedup = false

-- An organize plan notes the paths that it reads.
unfoldable pub note_path : PlanKind → SourceRef → Seen → Result PlanError Seen
note_path organize s seen = do
  path ← join_parts s.parts_raw
  ok (record seen {
    organize_source_paths = upsert (s.root_id, path) (λ _. tt) seen.organize_source_paths;
  })
note_path PlanKind.extract s seen = ok seen
note_path dedup s seen = ok seen

unfoldable pub see_source : PlanKind → SourceRef → Seen → Result PlanError Seen
see_source kind s seen = do
  bail_if (is_some (lookup (entry_key s) seen.source_keys)) duplicate_source
  note_path kind s (record seen { source_keys = upsert (entry_key s) (λ _. tt) seen.source_keys })

unfoldable pub check_read : List Root → PlanKind → Option SourceRef → Seen → Result PlanError Seen
check_read roots kind none seen = ok seen
check_read roots kind (some s) seen = do
  check_root roots s.root_id
  validate_components s.parts_raw
  check_content_hash s.content_hash
  see_source kind s seen

unfoldable pub is_legal : PlanKind → Op → Bool
is_legal kind (mkdir dest) = true
is_legal organize (move s dest c) = true
is_legal PlanKind.extract (move s dest c) = false
is_legal dedup (move s dest c) = false
is_legal organize (extract s dest c) = false
is_legal PlanKind.extract (extract s dest c) = true
is_legal dedup (extract s dest c) = false
is_legal organize (Op.quarantine s dest g t) = false
is_legal PlanKind.extract (Op.quarantine s dest g t) = false
is_legal dedup (Op.quarantine s dest g t) = true

abbrev pub is_tar : SourceType → Bool
is_tar tar = true
is_tar dir = false

-- The binding of a source's root, where the root and its binding are there.
abbrev pub binding_of : Option Root → Option SourceBinding
binding_of none = none
binding_of (some r) = r.source

abbrev pub wants_tar : Option SourceBinding → Result PlanError (Unit {0})
wants_tar none = ok tt
wants_tar (some b) = bail_if (not (is_tar b.source_type)) source_root_not_tar

abbrev pub wants_dir : Option SourceBinding → Result PlanError (Unit {0})
wants_dir none = ok tt
wants_dir (some b) = bail_if (is_tar b.source_type) source_root_not_dir

unfoldable pub find_group : Bytes → List Group → Option Group
find_group id [] = none
find_group id (g ∷ groups) = if eqb g.group_id id then some g else find_group id groups

unfoldable pub find_member : EntryKey → List GroupMember → Option GroupMember
find_member key [] = none
find_member key (m ∷ members) =
    if eqb (entry_key m.entry) key then some m else find_member key members

unfoldable pub check_member : Option GroupMember → Result PlanError (Unit {0})
check_member none = err not_a_member
check_member (some m) = do
  bail_if (not (is_quarantine m.disposition)) member_not_quarantined
  bail_if (not m.actionable) member_not_actionable

unfoldable pub check_backing : SourceRef → Option Group → Result PlanError (Unit {0})
check_backing s none = err unknown_group_id
check_backing s (some g) = check_member (find_member (entry_key s) g.members)

-- The checks that belong to one kind of operation.
unfoldable pub check_op : Plan → Op → Result PlanError (Unit {0})
check_op p (mkdir dest) = ok tt
check_op p (extract s dest c) = do
  bail_if (not (is_some (find_root s.root_id p.roots))) unknown_root_id
  wants_tar (binding_of (find_root s.root_id p.roots))
check_op p (move s dest c) = do
  bail_if (not (is_some (find_root s.root_id p.roots))) unknown_root_id
  wants_dir (binding_of (find_root s.root_id p.roots))
check_op p (Op.quarantine s dest group_id slot) = check_backing s (find_group group_id p.groups)

-- One round of the loop over the actions.
unfoldable pub check_action : Plan → Op → Seen → Result PlanError Seen
check_action p op seen = do
  seen₁ ← check_dest p.roots op seen
  seen₂ ← check_read p.roots p.kind (source_of op) seen₁
  bail_if (not (is_legal p.kind op)) illegal_op
  check_op p op
  ok seen₂

unfoldable pub check_actions : Plan → List Action → Seen → Result PlanError Seen
check_actions p [] seen = ok seen
check_actions p (a ∷ actions) seen = do
  seen' ← check_action p a.op seen
  check_actions p actions seen'

abbrev pub check_order : SortedMap DestKey (Unit {0}) → Op → Result PlanError (Unit {0})
check_order sources (move s dest c) = do
  path ← join_parts dest.parts_raw
  bail_if (is_some (lookup (dest.root_id, path) sources)) dest_is_planned_source
check_order sources (mkdir dest) = ok tt
check_order sources (extract s dest c) = ok tt
check_order sources (Op.quarantine s dest g t) = ok tt

-- No destination of an organize plan is a path that it reads.
unfoldable pub check_orders :
    SortedMap DestKey (Unit {0}) → List Action → Result PlanError (Unit {0})
check_orders sources [] = ok tt
check_orders sources (a ∷ actions) = do check_order sources a.op; check_orders sources actions

unfoldable pub check_floors : List Group → Result PlanError (Unit {0})
check_floors [] = ok tt
check_floors (g ∷ groups) = do
  bail_if (ltb g.replica_floor.remaining_after g.replica_floor.required) replica_floor_broken
  check_floors groups

abbrev pub is_dedup : PlanKind → Bool
is_dedup organize = false
is_dedup PlanKind.extract = false
is_dedup dedup = true

abbrev pub has_groups : List Group → Bool
has_groups [] = false
has_groups (_ ∷ _) = true

unfoldable pub invariants_hold : Plan → Result PlanError (Unit {0})
invariants_hold p = do
  check_roots [] p.roots
  bail_if (not (is_dedup p.kind) && has_groups p.groups) groups_on_non_dedup_plan
  seen ← check_actions p p.actions nothing_seen
  if is_organize p.kind then check_orders seen.organize_source_paths p.actions else ok tt
  check_floors p.groups
