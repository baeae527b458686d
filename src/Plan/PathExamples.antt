-- ===== src/Plan/PathExamples.antt =====
-- Paths and their bytes, ids, and an organize plan of one move.
use backupsage.Base.{
  ◌≡◌, refl, ℕ, zero, suc, ◌<◌, ◌^◌, Bool, true, false, Option, none, some, List, [], ◌∷◌, ◌++◌,
  All, any, ◌&&◌, Result, ok, err, arith,
}
use backupsage.Base.Int.{pos}
use backupsage.Coverage.{Bytes}
use backupsage.Diff.{to_hex}
use backupsage.Plan
use backupsage.Plan.Codec.{unhex-to_hex}
use backupsage.Plan.Joined.{join_parts_injective}
use backupsage.Plan.Undo.{base-suffix}
use backupsage.Plan.Framing.{IsShort}
use backupsage.Plan.Identified.{SameAction, FitsWords, preimage_identifies}
use backupsage.Plan.AnyOrder.{moves_to, takes_from, moves_any_order}
use backupsage.Plan.Examples.{disk, shelf, file, a_hex, b_hex}

unhex-to_hex_example : Plan.unhex (to_hex (0 ∷ 255 ∷ [])) ≡ ok (0 ∷ 255 ∷ [])
unhex-to_hex_example = unhex-to_hex (0 ∷ 255 ∷ []) (ground arith, (ground arith, tt))

abbrev two_parts : List Bytes
two_parts = a_hex ∷ b_hex ∷ []

two_parts-valid : Plan.validate_components two_parts ≡ ok tt
unfolding backupsage.Base.Order.list_ord backupsage.Base.Order.compare_list
    backupsage.Base.Order.nat_ord Plan.validate_components Plan.validate_component Plan.check_bytes
    Plan.unhex Plan.is_hex_digit Plan.hex_value Plan.decode_pairs
two_parts-valid = refl

two_parts-joined : Plan.join_parts two_parts ≡ ok (b'a' ∷ b'/' ∷ b'b' ∷ [])
unfolding Plan.join_parts Plan.join_rest Plan.unhex Plan.is_hex_digit Plan.hex_value
    Plan.decode_pairs
two_parts-joined = refl

join_parts_injective_example : two_parts ≡ two_parts
join_parts_injective_example =
    join_parts_injective two_parts two_parts (b'a' ∷ b'/' ∷ b'b' ∷ []) two_parts-valid
      two_parts-valid two_parts-joined two_parts-joined

-- "a" and "a-1".
abbrev first_copy : List Bytes
first_copy = (b'6' ∷ b'1' ∷ b'2' ∷ b'd' ∷ b'3' ∷ b'1' ∷ []) ∷ []

copied : Plan.suffix_last_component (a_hex ∷ []) 1 ≡ ok first_copy
unfolding Plan.suffix_last_component Plan.change_last Plan.suffix_component Plan.decimal
    Plan.digits_within Plan.split_stem_ext Plan.split_last_dot backupsage.Diff.to_hex Plan.unhex
    Plan.is_hex_digit Plan.hex_value Plan.decode_pairs
copied = refl

base-suffix_example : Plan.base_components first_copy (Plan.suffixed 1 []) ≡ ok (a_hex ∷ [])
base-suffix_example = base-suffix (a_hex ∷ []) first_copy 0 [] copied

abbrev photo : Plan.SourceRef
photo = file 1 a_hex (b'a' ∷ [])

abbrev album : Plan.DestPath
album = record { root_id = 1; parts_raw = b_hex ∷ []; display = b'b' ∷ [] }

abbrev moved : Plan.Op
moved = Plan.move photo album Plan.unsuffixed

abbrev moved_elements : List Bytes
moved_elements =
    (b'm' ∷ b'o' ∷ b'v' ∷ b'e' ∷ [])
    ∷ (1 ∷ 0 ∷ 0 ∷ 0 ∷ 0 ∷ 0 ∷ 0 ∷ 0 ∷ [])
    ∷ (b'b' ∷ [])
    ∷ Plan.trailer moved

moved-elements : Plan.action_elements moved ≡ ok moved_elements
unfolding Plan.action_elements Plan.tag Plan.dest_of Plan.le8 Plan.le_bytes Plan.trailer
    backupsage.Base.traverse Plan.unhex Plan.is_hex_digit Plan.hex_value Plan.decode_pairs
moved-elements = refl

moved-FitsWords : FitsWords moved
unfolding Plan.dest_of
moved-FitsWords = (ground arith, (ground arith, ground arith))

moved-IsShort : All IsShort moved_elements
unfolding Plan.trailer Plan.le8 Plan.le8_i64 Plan.le_bytes
moved-IsShort = (
  ground arith,
  (ground arith, (ground arith, (ground arith, (ground arith, (ground arith, tt))))),
)

preimage_identifies_example : SameAction moved moved
preimage_identifies_example =
    preimage_identifies moved moved moved_elements moved_elements moved-FitsWords moved-FitsWords
      moved-elements moved-elements moved-IsShort moved-IsShort refl

abbrev organized : Plan.Plan
organized = record {
  plan_schema_version = 1;
  kind = Plan.organize;
  policy = Plan.for_extract (record { selection = Plan.all });
  roots = disk ∷ shelf Plan.RootRole.destination ∷ [];
  actions = record { action_id = []; ordinal = 0; op = moved } ∷ [];
  groups = [];
  excluded = [];
  summary = record {
    actions_total = 1;
    actions_by_op = [];
    bytes_affected = 5;
    groups_total = 0;
    excluded_total = 0;
    excluded_bytes = 0;
    roots_written = 1 ∷ [];
  };
}

organized-holds : Plan.invariants_hold organized ≡ ok tt
unfolding backupsage.Base.SortedMap.lookup backupsage.Base.SortedMap.upsert
    backupsage.Base.Order.nat_ord backupsage.Base.Order.int_ord backupsage.Base.Order.list_ord
    backupsage.Base.Order.pair_ord backupsage.Base.traverse backupsage.Base.Sort.sort_by
    backupsage.Base.Sort.insert_by Plan.dest_of Plan.is_hex_digit Plan.hex_value Plan.decode_pairs
    Plan.unhex Plan.is_lowercase_hex Plan.join_rest Plan.join_parts Plan.join_parts_lossy
    Plan.lossy_join_hex Plan.check_bytes Plan.validate_component Plan.validate_components
    Plan.check_binding Plan.check_fingerprint Plan.check_roots Plan.find_root Plan.check_root
    Plan.see_dest Plan.check_dest Plan.check_content_hash Plan.see_source Plan.note_path
    Plan.check_read Plan.is_legal Plan.find_group Plan.find_member Plan.check_member
    Plan.check_backing Plan.check_op Plan.check_action Plan.check_actions Plan.check_orders
    Plan.check_floors Plan.invariants_hold backupsage.Base.Order.compare_list
organized-holds = refl

moves_any_order_example :
    (any (λ a. moves_to (0, b'a' ∷ []) a.op) organized.actions
      && any (λ a. takes_from (0, b'a' ∷ []) a.op) organized.actions)
    ≡ false
moves_any_order_example = moves_any_order organized (0, b'a' ∷ []) refl organized-holds

abbrev in_album : List Bytes → Plan.DestPath
in_album parts = record { root_id = 1; parts_raw = parts; display = [] }

abbrev two_moves : List Bytes → Plan.Conflict → List Bytes → Plan.Conflict → Plan.Plan
two_moves one c two d = record organized {
  actions =
      record { action_id = []; ordinal = 0; op = Plan.move photo (in_album one) c }
      ∷ record { action_id = []; ordinal = 1; op = Plan.move (file 2 b_hex []) (in_album two) d }
      ∷ [];
}

-- "a-1-1"
abbrev second_copy : List Bytes
second_copy = (b'6' ∷ b'1' ∷ b'2' ∷ b'd' ∷ b'3' ∷ b'1' ∷ b'2' ∷ b'd' ∷ b'3' ∷ b'1' ∷ []) ∷ []

-- A suffix that no longer has a competitor loses its record but not its name, so one pass can
-- leave two actions with one destination.
one_pass :
    Plan.canonicalize_conflicts
      (two_moves first_copy (Plan.suffixed 1 []) first_copy Plan.unsuffixed)
    ≡ ok (two_moves first_copy Plan.unsuffixed first_copy Plan.unsuffixed)
unfolding backupsage.Base.SortedMap.lookup backupsage.Base.SortedMap.upsert
    backupsage.Base.Order.nat_ord backupsage.Base.Order.int_ord backupsage.Base.Order.list_ord
    backupsage.Base.Order.pair_ord backupsage.Base.traverse backupsage.Base.Sort.sort_by
    backupsage.Base.Sort.insert_by backupsage.Base.Order.compare_list backupsage.Diff.to_hex
    Plan.is_hex_digit Plan.hex_value Plan.decode_pairs Plan.unhex Plan.is_lowercase_hex
    Plan.join_rest Plan.join_parts Plan.join_parts_lossy Plan.lossy_join_hex Plan.check_bytes
    Plan.validate_component Plan.validate_components Plan.split_last_dot Plan.split_stem_ext
    Plan.digits_within Plan.decimal Plan.strip_suffix Plan.change_last Plan.suffix_component
    Plan.suffix_last_component Plan.base_component Plan.base_components Plan.le_bytes Plan.le8
    Plan.le8_i64 Plan.framed Plan.tag Plan.dest_of Plan.trailer Plan.action_elements
    Plan.group_elements Plan.slot_elements Plan.compute_action_id Plan.compute_group_id
    Plan.compute_slot Plan.phase1_key Plan.entry_of Plan.entries_from Plan.collide Plan.by_rank
    Plan.sort_keys Plan.set_conflict Plan.set_dest_parts Plan.change_op Plan.assign_ranks
    Plan.resolve Plan.resolve_all Plan.canonicalize_conflicts
one_pass = refl

-- The next pass takes the names apart.
abbrev rivals : List Plan.EntryKey
rivals = (0, pos 1) ∷ (0, pos 2) ∷ []

next_pass :
    Plan.canonicalize_conflicts (two_moves first_copy Plan.unsuffixed first_copy Plan.unsuffixed)
    ≡ ok (two_moves first_copy (Plan.suffixed 0 rivals) second_copy (Plan.suffixed 1 rivals))
unfolding backupsage.Base.SortedMap.lookup backupsage.Base.SortedMap.upsert
    backupsage.Base.Order.nat_ord backupsage.Base.Order.int_ord backupsage.Base.Order.list_ord
    backupsage.Base.Order.pair_ord backupsage.Base.traverse backupsage.Base.Sort.sort_by
    backupsage.Base.Sort.insert_by backupsage.Base.Order.compare_list backupsage.Diff.to_hex
    Plan.is_hex_digit Plan.hex_value Plan.decode_pairs Plan.unhex Plan.is_lowercase_hex
    Plan.join_rest Plan.join_parts Plan.join_parts_lossy Plan.lossy_join_hex Plan.check_bytes
    Plan.validate_component Plan.validate_components Plan.split_last_dot Plan.split_stem_ext
    Plan.digits_within Plan.decimal Plan.strip_suffix Plan.change_last Plan.suffix_component
    Plan.suffix_last_component Plan.base_component Plan.base_components Plan.le_bytes Plan.le8
    Plan.le8_i64 Plan.framed Plan.tag Plan.dest_of Plan.trailer Plan.action_elements
    Plan.group_elements Plan.slot_elements Plan.compute_action_id Plan.compute_group_id
    Plan.compute_slot Plan.phase1_key Plan.entry_of Plan.entries_from Plan.collide Plan.by_rank
    Plan.sort_keys Plan.set_conflict Plan.set_dest_parts Plan.change_op Plan.assign_ranks
    Plan.resolve Plan.resolve_all Plan.canonicalize_conflicts
next_pass = refl
