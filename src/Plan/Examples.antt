-- ===== src/Plan/Examples.antt =====
-- A dedup plan that puts one copy aside, and the live sources, the bytes and the file that go with it.
use backupsage.Base.{
  ◌≡◌, refl, ℕ, zero, suc, ◌≤◌, Bool, true, false, Option, none, some, List, [], ◌∷◌, ◌++◌, All,
  Result, ok, err, ok-of_is_ok, ◌>>=◌, arith, count, any, ◌&&◌,
}
use backupsage.Base.Int.{ℤ, pos}
use backupsage.Coverage.{Bytes}
use backupsage.Plan
use backupsage.Plan.Derived.{verify_derived_iff}
use backupsage.Plan.Determined.{verify_derived_determines}
use backupsage.Plan.Kept.{IsKept, floors-IsKept}
use backupsage.Plan.Legal.{IsLegal, invariants_hold-IsLegal}
use backupsage.Plan.Targets.{writes, reads, unique_targets}
use backupsage.Plan.Referenced.{references}
use backupsage.Plan.Fresh.{IsFresh, IsLive, verify-IsLive}
use backupsage.Plan.Stored.{IsLoaded, load-IsLoaded}

abbrev no_hash : Bytes → Bytes
no_hash bytes = bytes

abbrev digits : ℕ → Bytes
digits zero = []
digits (suc n) = b'0' ∷ digits n

abbrev pub hash : Bytes
hash = b'b' ∷ b'3' ∷ b':' ∷ digits 64

-- The hexadecimal digits of the one-letter names `a` and `b`.
abbrev pub a_hex : Bytes
a_hex = b'6' ∷ b'1' ∷ []

abbrev pub b_hex : Bytes
b_hex = b'6' ∷ b'2' ∷ []

-- The ids that `no_hash` leads to.
abbrev slot_id : Bytes
slot_id = b'6' ∷ b'2' ∷ b'6' ∷ b'1' ∷ b'6' ∷ b'3' ∷ b'6' ∷ b'b' ∷ []

abbrev group_id : Bytes
group_id = slot_id ++ b'7' ∷ b'5' ∷ b'7' ∷ b'0' ∷ b'7' ∷ b'3' ∷ b'6' ∷ b'1' ∷ []

abbrev action_id : Bytes
action_id =
    group_id
    ++ b'6' ∷ b'7' ∷ b'6' ∷ b'5' ∷ b'2' ∷ b'e' ∷ b'7' ∷ b'0' ∷ b'6' ∷ b'c' ∷ b'6' ∷ b'1' ∷ b'6'
      ∷ b'e' ∷ b'2' ∷ b'e' ∷ []

abbrev pub binding : Plan.SourceBinding
binding = record {
  label = [];
  index_uuid = [];
  index_schema_version = pos 1;
  content_mode = Plan.full;
  hash_algo = [];
  phash_algo = [];
  files_indexed = 2;
  source_type = Plan.dir;
  fingerprint = Plan.no_fingerprint Plan.directory_source_v1;
}

abbrev pub disk : Plan.Root
disk = record {
  root_id = 0;
  role = Plan.RootRole.source;
  path_display = b'a' ∷ [];
  path_raw = a_hex;
  source = some binding;
}

abbrev pub shelf : Plan.RootRole → Plan.Root
shelf role = record {
  root_id = 1;
  role = role;
  path_display = b'b' ∷ [];
  path_raw = b_hex;
  source = none;
}

abbrev pub file : ℕ → Bytes → Bytes → Plan.SourceRef
file id name shown = record {
  root_id = 0;
  file_id = pos id;
  parts_raw = name ∷ [];
  display = shown;
  content_hash = hash;
  size = 5;
  mtime_unix = none;
}

abbrev to : Plan.DestPath
to = record { root_id = 1; parts_raw = b_hex ∷ []; display = b'b' ∷ [] }

abbrev twin : Plan.GroupMember
twin = record {
  entry = file 2 b_hex (b'b' ∷ []);
  disposition = Plan.Disposition.quarantine;
  reason = [];
  actionable = true;
  hamming_to_keep = none;
  shadowed = false;
  sparse = false;
}

abbrev twins : Plan.Group
twins = record {
  group_id = group_id;
  match_kind = Plan.exact;
  max_distance = 0;
  keeper = record { entry = file 1 a_hex (b'a' ∷ []); reason = [] };
  members = twin ∷ [];
  replica_floor = record {
    required = 1;
    observed = 1;
    remaining_after = 1;
    counted_scope = Plan.registered_reachable_archives;
  };
  reclaimable_bytes = 5;
  review_only_bytes = 0;
}

abbrev put_aside : Plan.Action
put_aside = record {
  action_id = action_id;
  ordinal = 0;
  op = Plan.Op.quarantine (file 2 b_hex (b'b' ∷ [])) to group_id slot_id;
}

abbrev aside : Plan.Plan
aside = record {
  plan_schema_version = 1;
  kind = Plan.dedup;
  policy = Plan.for_dedup (record {
    match_kinds = Plan.exact ∷ [];
    near_threshold = 3;
    min_size = 0;
    include_empty = false;
    across_only = false;
    replica_floor = 1;
    keep_policy = [];
  });
  roots = disk ∷ shelf Plan.RootRole.quarantine ∷ [];
  actions = put_aside ∷ [];
  groups = twins ∷ [];
  excluded = [];
  summary = record {
    actions_total = 1;
    actions_by_op =
        record {
          op = b'q' ∷ b'u' ∷ b'a' ∷ b'r' ∷ b'a' ∷ b'n' ∷ b't' ∷ b'i' ∷ b'n' ∷ b'e' ∷ [];
          count = 1;
        }
        ∷ [];
    bytes_affected = 5;
    groups_total = 1;
    excluded_total = 0;
    excluded_bytes = 0;
    roots_written = 1 ∷ [];
  };
}

-- A plan whose group has its only copy both as keeper and as member, and that puts this copy aside.
abbrev drained : Plan.Plan
drained = record aside {
  groups = record twins { keeper = record { entry = file 2 b_hex (b'b' ∷ []); reason = [] } } ∷ [];
}

both-derived :
    (Plan.verify_derived no_hash aside ≡ ok tt) × (Plan.verify_derived no_hash drained ≡ ok tt)
unfolding backupsage.Base.SortedMap.lookup backupsage.Base.SortedMap.upsert
    backupsage.Base.Order.nat_ord backupsage.Base.Order.int_ord backupsage.Base.Order.list_ord
    backupsage.Base.Order.pair_ord backupsage.Base.traverse backupsage.Base.Sort.sort_by
    backupsage.Base.Sort.insert_by Plan.is_hex_digit Plan.hex_value Plan.decode_pairs Plan.unhex
    Plan.is_lowercase_hex Plan.join_rest Plan.join_parts Plan.join_parts_lossy Plan.lossy_join_hex
    Plan.check_bytes Plan.validate_component Plan.validate_components Plan.split_last_dot
    Plan.split_stem_ext Plan.digits_within Plan.decimal Plan.strip_suffix Plan.change_last
    Plan.suffix_component Plan.suffix_last_component Plan.base_component Plan.base_components
    Plan.le_bytes Plan.le8 Plan.le8_i64 Plan.framed Plan.tag Plan.dest_of Plan.trailer
    Plan.action_elements Plan.group_elements Plan.slot_elements Plan.compute_action_id
    Plan.compute_group_id Plan.compute_slot Plan.collect_ids Plan.referenced_root_ids
    Plan.check_references Plan.decode_root Plan.sort_roots Plan.remap_from Plan.number_roots
    Plan.remap_id Plan.remap_op Plan.remap_plan Plan.canonicalize_roots Plan.phase1_key
    Plan.entry_of Plan.entries_from Plan.collide Plan.by_rank Plan.sort_keys Plan.set_conflict
    Plan.set_dest_parts Plan.change_op Plan.assign_ranks Plan.resolve Plan.resolve_all
    Plan.canonicalize_conflicts Plan.display_source Plan.display_dest Plan.display_op
    Plan.display_group Plan.display_excluded Plan.canonicalize_display_fields Plan.sort_members
    Plan.staying_roots Plan.remaining_after Plan.sort_groups Plan.sort_excluded Plan.action_sort_key
    Plan.keyed Plan.sort_keyed Plan.number_actions Plan.count_ops Plan.written_roots
    Plan.recompute_summary Plan.finish_group Plan.canonicalize_groups Plan.derive_slot
    Plan.derive_id Plan.canonicalize_actions Plan.finish_summary Plan.canonicalize
    Plan.verify_derived backupsage.Base.Order.compare_list backupsage.Diff.to_hex
    backupsage.Legacy.from_utf8_lossy
both-derived =
    ((verify_derived_iff no_hash aside).1 refl, (verify_derived_iff no_hash drained).1 refl)

aside-derived : Plan.verify_derived no_hash aside ≡ ok tt
aside-derived = both-derived.0

-- Both checks accept the drained plan too.
both-hold : (Plan.invariants_hold aside ≡ ok tt) × (Plan.invariants_hold drained ≡ ok tt)
unfolding backupsage.Base.SortedMap.lookup backupsage.Base.SortedMap.upsert
    backupsage.Base.Order.nat_ord backupsage.Base.Order.int_ord backupsage.Base.Order.list_ord
    backupsage.Base.Order.pair_ord backupsage.Base.traverse backupsage.Base.Sort.sort_by
    backupsage.Base.Sort.insert_by Plan.dest_of Plan.is_hex_digit Plan.hex_value Plan.decode_pairs
    Plan.unhex Plan.is_lowercase_hex Plan.join_rest Plan.join_parts Plan.join_parts_lossy
    Plan.lossy_join_hex Plan.check_bytes Plan.validate_component Plan.validate_components
    Plan.check_binding Plan.check_fingerprint Plan.check_roots Plan.find_root Plan.check_root
    Plan.see_dest Plan.check_dest Plan.check_content_hash Plan.see_source Plan.note_path
    Plan.check_read Plan.is_legal Plan.find_group Plan.find_member Plan.check_member
    Plan.check_backing Plan.check_op Plan.check_action Plan.check_actions Plan.check_orders
    Plan.check_floors Plan.invariants_hold backupsage.Base.Order.compare_list
both-hold = (refl, refl)

aside-holds : Plan.invariants_hold aside ≡ ok tt
aside-holds = both-hold.0

invariants_hold-IsLegal_example : All (λ a. IsLegal aside a.op) aside.actions
invariants_hold-IsLegal_example = invariants_hold-IsLegal aside aside-holds

unique_targets_example :
    (count (λ a. writes (1, b_hex) a.op) aside.actions ≤ 1)
    × (count (λ a. reads (0, pos 2) a.op) aside.actions ≤ 1)
unique_targets_example = unique_targets aside (1, b_hex) (0, pos 2) aside-holds

verify_derived_determines_example : aside ≡ aside
verify_derived_determines_example =
    verify_derived_determines no_hash aside aside aside-derived aside-derived refl

floors-IsKept_example : All (IsKept aside) aside.groups
unfolding backupsage.Base.Order.nat_ord backupsage.Base.Order.int_ord backupsage.Base.Order.pair_ord
floors-IsKept_example = floors-IsKept no_hash aside aside-derived aside-holds (((refl, tt), tt))

-- Live sources that never change.
abbrev found : Plan.LiveSource
found = record {
  index_uuid = [];
  index_schema_version = pos 1;
  content_mode = Plan.full;
  hash_algo = [];
  phash_algo = [];
  files_indexed = 2;
  source_type = Plan.dir;
  archive_blake3 = none;
}

abbrev name_of : ℤ → Bytes
name_of (pos (suc zero)) = b'a' ∷ []
name_of _ = b'b' ∷ []

abbrev live : Plan.PlanState (Unit {0})
live = record {
  source = λ r s. ok (found, s);
  entry = λ r id s. ok (some (record { path_raw = name_of id; content_hash = hash }), s);
}

aside-sources : Plan.verify_sources live aside.roots tt ≡ ok tt
unfolding backupsage.Base.SortedMap.lookup backupsage.Base.SortedMap.upsert
    backupsage.Base.Order.nat_ord backupsage.Base.Order.int_ord backupsage.Base.Order.list_ord
    backupsage.Base.Order.pair_ord backupsage.Base.traverse backupsage.Base.Sort.sort_by
    backupsage.Base.Sort.insert_by Plan.verify_sources Plan.verify_entries Plan.check_live_source
    Plan.check_live_fingerprint Plan.check_live_entry Plan.referenced_entries
    Plan.entries_of_actions Plan.entries_of_members Plan.entries_of_groups Plan.insert_entry
    Plan.SourceRef-discrete Plan.find_root Plan.dest_of Plan.unhex Plan.is_hex_digit Plan.hex_value
    Plan.decode_pairs Plan.join_rest Plan.join_parts backupsage.Base.Order.compare_list
    native.Mathlib.Decide.ℕ_discrete
aside-sources = refl

aside-entries :
    (Plan.referenced_entries aside >>= λ es. Plan.verify_entries live aside.roots es tt) ≡ ok tt
unfolding backupsage.Base.SortedMap.lookup backupsage.Base.SortedMap.upsert
    backupsage.Base.Order.nat_ord backupsage.Base.Order.int_ord backupsage.Base.Order.list_ord
    backupsage.Base.Order.pair_ord backupsage.Base.traverse backupsage.Base.Sort.sort_by
    backupsage.Base.Sort.insert_by Plan.verify_sources Plan.verify_entries Plan.check_live_source
    Plan.check_live_fingerprint Plan.check_live_entry Plan.referenced_entries
    Plan.entries_of_actions Plan.entries_of_members Plan.entries_of_groups Plan.insert_entry
    Plan.SourceRef-discrete Plan.find_root Plan.dest_of Plan.unhex Plan.is_hex_digit Plan.hex_value
    Plan.decode_pairs Plan.join_rest Plan.join_parts backupsage.Base.Order.compare_list
    native.Mathlib.Decide.ℕ_discrete
aside-entries = refl

aside-verified : Plan.verify live no_hash aside tt ≡ ok tt
unfolding Plan.verify
aside-verified = rw (aside-derived, aside-holds, aside-sources) aside-entries

verify-IsLive_example :
    All (λ r. IsFresh live r r.source) aside.roots
    × All (IsLive live aside.roots) (references aside)
verify-IsLive_example = verify-IsLive live no_hash aside tt tt aside-verified

-- A printer and a parser for the one plan.
abbrev one_plan : Plan.Json
one_plan = record { print = λ p. b'p' ∷ []; parse = λ bytes. some aside }

aside-read : Plan.from_canonical_bytes no_hash one_plan (b'p' ∷ b'\n' ∷ []) ≡ ok aside
unfolding Plan.from_canonical_bytes
aside-read = rw (aside-derived, aside-holds) refl

-- A disk with the one file.
abbrev regular_file : Plan.Metadata
regular_file = record { is_symlink = false; is_file = true; dev = 1; ino = 7 }

abbrev one_file : Plan.FileSystem
one_file = record {
  symlink_metadata = λ path. some regular_file;
  open_file =
      λ path. some (record { metadata = some regular_file; content = some (b'p' ∷ b'\n' ∷ []) });
}

aside-loaded : Plan.load_from_regular_file no_hash one_plan one_file (b'a' ∷ []) ≡ ok aside
unfolding Plan.load_from_regular_file backupsage.Base.Order.compare_list
    backupsage.Base.Order.nat_ord backupsage.Base.Order.list_ord
aside-loaded = rw aside-read refl

load-IsLoaded_example : IsLoaded no_hash one_plan one_file (b'a' ∷ []) aside
load-IsLoaded_example = load-IsLoaded no_hash one_plan one_file (b'a' ∷ []) aside aside-loaded
