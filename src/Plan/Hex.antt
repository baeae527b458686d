-- ===== src/Plan/Hex.antt =====
-- src/core/plan.rs: hex strings and the path components that they spell.
use backupsage.Base.{
  ℕ, ◌+◌, ◌-◌, ◌*◌, ◌%◌, ◌==◌, leb, Bool, not, ◌&&◌, ◌||◌, List, [], ◌∷◌, ◌++◌, length, all, any,
  if◌then◌else◌, Result, ok, err, ◌>>=◌, ◌>>◌, bail_if,
}
use backupsage.Base.Order.{eqb, nat_ord, list_ord}
use backupsage.Coverage.{Bytes}
use backupsage.Legacy.{from_utf8_lossy}

-- The `bail!`s of the module, and the panic of `expect`.
pub data PlanError : Type 0 where
  not_lowercase_hex empty_component dot_component component_with_separator dest_has_no_components
        suffix_not_found op_without_conflict op_without_dest duplicate_root_id unknown_root_id
        invalid_sort_key disagreeing_derived_fields :
      PlanError
  shared_path_raw source_without_binding binding_on_non_source dir_with_archive_fingerprint
        tar_without_fingerprint groups_on_non_dedup_plan duplicate_destination
        malformed_content_hash duplicate_source illegal_op source_root_not_tar source_root_not_dir
        unknown_group_id not_a_member member_not_quarantined member_not_actionable
        dest_is_planned_source replica_floor_broken :
      PlanError
  newer_plan_version invalid_json : PlanError
  live_source_unreadable index_uuid_changed index_schema_version_changed content_mode_changed
        hash_algo_changed phash_algo_changed files_indexed_changed source_type_changed
        archive_blake3_changed archive_blake3_acquired contradictory_facts live_entry_unreadable
        entry_missing raw_path_changed content_hash_changed :
      PlanError

unfoldable pub is_hex_digit : ℕ → Bool
is_hex_digit c = (leb b'0' c && leb c b'9') || (leb b'a' c && leb c b'f')

unfoldable pub hex_value : ℕ → ℕ
hex_value c = if leb c b'9' then c - b'0' else c - b'a' + 10

-- The bytes that pairs of digits stand for; the length is even.
unfoldable pub decode_pairs : Bytes → Bytes
decode_pairs [] = []
decode_pairs (a ∷ []) = []
decode_pairs (a ∷ b ∷ rest) = (hex_value a * 16 + hex_value b) ∷ decode_pairs rest

abbrev pub is_even : ℕ → Bool
is_even n = n % 2 == 0

unfoldable pub unhex : Bytes → Result PlanError Bytes
unhex s =
    if not (is_even (length s)) || not (all is_hex_digit s)
    then err not_lowercase_hex
    else ok (decode_pairs s)

unfoldable pub is_lowercase_hex : Bytes → Bool
is_lowercase_hex s = not (length s == 0) && (is_even (length s) && all is_hex_digit s)

-- The rounds of `join_parts` after the first one.
unfoldable pub join_rest : List Bytes → Result PlanError Bytes
join_rest [] = ok []
join_rest (c ∷ cs) = do bytes ← unhex c; rest ← join_rest cs; ok (b'/' ∷ bytes ++ rest)

unfoldable pub join_parts : List Bytes → Result PlanError Bytes
join_parts [] = ok []
join_parts (c ∷ cs) = do bytes ← unhex c; rest ← join_rest cs; ok (bytes ++ rest)

unfoldable pub join_parts_lossy : List Bytes → Result PlanError Bytes
join_parts_lossy parts = do bytes ← join_parts parts; ok (from_utf8_lossy bytes)

unfoldable pub lossy_join_hex : Bytes → Result PlanError Bytes
lossy_join_hex path_raw = do bytes ← unhex path_raw; ok (from_utf8_lossy bytes)

abbrev pub is_dots : Bytes → Bool
is_dots bytes = eqb bytes (b'.' ∷ []) || eqb bytes (b'.' ∷ b'.' ∷ [])

abbrev pub is_separator : ℕ → Bool
is_separator b = b == b'/' || b == 0

-- `validate_component`, on the decoded bytes.
unfoldable pub check_bytes : Bytes → Result PlanError (Unit {0})
check_bytes bytes = do
  bail_if (length bytes == 0) empty_component
  bail_if (is_dots bytes) dot_component
  bail_if (any is_separator bytes) component_with_separator

unfoldable pub validate_component : Bytes → Result PlanError (Unit {0})
validate_component hex = unhex hex >>= check_bytes

unfoldable pub validate_components : List Bytes → Result PlanError (Unit {0})
validate_components [] = ok tt
validate_components (c ∷ cs) = do validate_component c; validate_components cs
