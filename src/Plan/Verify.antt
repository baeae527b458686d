-- ===== src/Plan/Verify.antt =====
-- src/core/plan.rs: `verify`, the check of a plan against the live sources. A `PlanState` is given
-- by the caller: its methods read through a state, which they may change.
use mathlib.Core.Path.{◌≡◌}
use backupsage.Base.{
  ℕ, ◌==◌, Bool, true, false, not, Option, none, some, is_some, List, [], ◌∷◌, Result, ok, err,
  ◌>>=◌, ◌>>◌, bail_if,
}
use backupsage.Base.Int.{ℤ}
use backupsage.Base.Order.{eqb, nat_ord, int_ord, list_ord, pair_ord, option_ord}
use backupsage.Base.SortedMap.{SortedMap, lookup, upsert}
use backupsage.Coverage.{Bytes}
use backupsage.Plan.Types.{
  ContentMode, full, search_only, metadata_only, SourceType, tar, dir, Fingerprint, archive_blake3,
  no_fingerprint, SourceBinding, Root, SourceRef, SourceRef-discrete, EntryKey, Action, GroupMember,
  Group, Plan,
}
use backupsage.Plan.Hex.{
  PlanError, join_parts, index_uuid_changed, index_schema_version_changed, content_mode_changed,
  hash_algo_changed, phash_algo_changed, files_indexed_changed, source_type_changed,
  archive_blake3_changed, archive_blake3_acquired, contradictory_facts, entry_missing,
  raw_path_changed, content_hash_changed, unknown_root_id,
}
use backupsage.Plan.Ids.{entry_key}
use backupsage.Plan.Canonical.{source_of, verify_derived}
use backupsage.Plan.Invariants.{find_root, invariants_hold}

pub record LiveSource : Type 0 where
  pub index_uuid : Bytes
  pub index_schema_version : ℤ
  pub content_mode : ContentMode
  pub hash_algo : Bytes
  pub phash_algo : Bytes
  pub files_indexed : ℕ
  pub source_type : SourceType
  pub archive_blake3 : Option Bytes

pub record LiveEntry : Type 0 where
  pub path_raw : Bytes
  pub content_hash : Bytes

pub record PlanState (S : Type 0) : Type 0 where
  pub source : Root → S → Result PlanError (LiveSource × S)
  pub entry : Root → ℤ → S → Result PlanError (Option LiveEntry × S)

abbrev pub same_mode : ContentMode → ContentMode → Bool
same_mode full full = true
same_mode search_only search_only = true
same_mode metadata_only metadata_only = true
same_mode _ _ = false

abbrev pub same_type : SourceType → SourceType → Bool
same_type tar tar = true
same_type dir dir = true
same_type _ _ = false

unfoldable pub check_live_fingerprint : Fingerprint → Option Bytes → Result PlanError (Unit {0})
check_live_fingerprint (archive_blake3 value size mtime) live =
    bail_if (not (eqb live (some value))) archive_blake3_changed
check_live_fingerprint (no_fingerprint reason) live = bail_if (is_some live) archive_blake3_acquired

-- The live facts of a source against the ones that the plan records.
unfoldable pub check_live_source : SourceBinding → LiveSource → Result PlanError (Unit {0})
check_live_source b live = do
  bail_if (not (eqb live.index_uuid b.index_uuid)) index_uuid_changed
  bail_if (not (eqb live.index_schema_version b.index_schema_version)) index_schema_version_changed
  bail_if (not (same_mode live.content_mode b.content_mode)) content_mode_changed
  bail_if (not (eqb live.hash_algo b.hash_algo)) hash_algo_changed
  bail_if (not (eqb live.phash_algo b.phash_algo)) phash_algo_changed
  bail_if (not (live.files_indexed == b.files_indexed)) files_indexed_changed
  bail_if (not (same_type live.source_type b.source_type)) source_type_changed
  check_live_fingerprint b.fingerprint live.archive_blake3

abbrev pub Entries : Type 0
Entries = SortedMap EntryKey SourceRef

abbrev pub agree : {s t : SourceRef} → Dec (s ≡ t) → Bool
agree (yes _) = true
agree (no _) = false

abbrev pub agrees_with : SourceRef → Option SourceRef → Bool
agrees_with s none = true
agrees_with s (some prior) = agree (SourceRef-discrete prior s)

-- `insert_referenced_entry`
unfoldable pub insert_entry : SourceRef → Entries → Result PlanError Entries
insert_entry s entries = do
  bail_if (not (agrees_with s (lookup (entry_key s) entries))) contradictory_facts
  ok (upsert (entry_key s) (λ _. s) entries)

abbrev pub insert_option : Option SourceRef → Entries → Result PlanError Entries
insert_option none entries = ok entries
insert_option (some s) entries = insert_entry s entries

unfoldable pub entries_of_actions : List Action → Entries → Result PlanError Entries
entries_of_actions [] entries = ok entries
entries_of_actions (a ∷ actions) entries =
    insert_option (source_of a.op) entries >>= entries_of_actions actions

unfoldable pub entries_of_members : List GroupMember → Entries → Result PlanError Entries
entries_of_members [] entries = ok entries
entries_of_members (m ∷ members) entries =
    insert_entry m.entry entries >>= entries_of_members members

unfoldable pub entries_of_groups : List Group → Entries → Result PlanError Entries
entries_of_groups [] entries = ok entries
entries_of_groups (g ∷ groups) entries = do
  kept ← insert_entry g.keeper.entry entries
  filled ← entries_of_members g.members kept
  entries_of_groups groups filled

unfoldable pub referenced_entries : Plan → Result PlanError Entries
referenced_entries p = do
  entries ← entries_of_actions p.actions []
  entries_of_groups p.groups entries

unfoldable pub check_live_entry : SourceRef → Option LiveEntry → Result PlanError (Unit {0})
check_live_entry s none = err entry_missing
check_live_entry s (some live) = do
  path ← join_parts s.parts_raw
  bail_if (not (eqb live.path_raw path)) raw_path_changed
  bail_if (not (eqb live.content_hash s.content_hash)) content_hash_changed

module _ {S : Type 0} (state : PlanState S) where
  abbrev pub verify_source : Root → Option SourceBinding → S → Result PlanError S
  verify_source r none s = ok s
  verify_source r (some b) s = do (live, s') ← state.source r s; check_live_source b live; ok s'

  unfoldable pub verify_sources : List Root → S → Result PlanError S
  verify_sources [] s = ok s
  verify_sources (r ∷ roots) s = verify_source r r.source s >>= verify_sources roots

  abbrev pub verify_entry : Option Root → EntryKey → SourceRef → S → Result PlanError S
  verify_entry none key expected s = err unknown_root_id
  verify_entry (some r) key expected s = do
    (live, s') ← state.entry r key.1 s
    check_live_entry expected live
    ok s'

  unfoldable pub verify_entries : List Root → Entries → S → Result PlanError S
  verify_entries roots [] s = ok s
  verify_entries roots ((key, expected) ∷ entries) s =
      verify_entry (find_root key.0 roots) key expected s >>= verify_entries roots entries

  unfoldable pub verify : (Bytes → Bytes) → Plan → S → Result PlanError S
  verify blake3 p s = do
    verify_derived blake3 p
    invariants_hold p
    s' ← verify_sources p.roots s
    entries ← referenced_entries p
    verify_entries p.roots entries s'
