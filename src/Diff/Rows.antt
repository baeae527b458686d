-- ===== src/Diff/Rows.antt =====
-- src/core/diff.rs: what one entry proves, and how two entries at one path compare.
use text.Mathlib.Text.{◌==◌ as str_eq}
use backupsage.Base.{
  ℕ, ◌==◌, String, Bool, true, false, not, ◌&&◌, ◌||◌, Option, none, some, is_some, if◌then◌else◌,
  bit_or,
}
use backupsage.Base.Int.{pos}
use backupsage.Base.Order.{eqb, nat_ord, int_ord, list_ord, option_ord}
use backupsage.Store.Flags
use backupsage.Legacy.{name_uncertain}
use backupsage.Coverage.{Bytes}
use backupsage.Diff.Types.{
  SnapshotState, complete, incomplete, unavailable, incompatible, SnapshotInfo, EntryType, file,
  Entry, ChangeKind, byte_identical, metadata_only_changed, content_changed, inconclusive, Reason,
  path_absent, equal_content_and_metadata, equal_content_different_metadata, different_content,
  missing_content_evidence, inconsistent_content_evidence, missing_metadata_evidence,
  unsupported_entry_type, other_snapshot_incomplete, incompatible_snapshots,
}

abbrev pub is_incompatible : SnapshotState → Bool
is_incompatible incompatible = true
is_incompatible _ = false

abbrev pub is_complete : SnapshotState → Bool
is_complete complete = true
is_complete _ = false

abbrev pub is_unavailable : SnapshotState → Bool
is_unavailable unavailable = true
is_unavailable _ = false

abbrev pub is_incomplete : SnapshotState → Bool
is_incomplete incomplete = true
is_incomplete _ = false

abbrev is_blake3 : Option String → Bool
is_blake3 none = false
is_blake3 (some algo) = str_eq algo "blake3"

abbrev is_named : Option String → Bool
is_named none = false
is_named (some id) = not (str_eq id "")

unfoldable pub compatible : SnapshotInfo → Bool
unfolding option_ord int_ord
compatible info =
    eqb info.schema_version (some (pos 3))
    && (is_blake3 info.hash_algo && (is_named info.index_uuid && not (is_incompatible info.state)))

abbrev untrusted_hash : ℕ
untrusted_hash = bit_or Flags.read_error Flags.pax_unparsed

abbrev pub is_file : EntryType → Bool
is_file file = true
is_file _ = false

unfoldable pub trusted_hash : Entry → Option Bytes
trusted_hash e =
    if is_file e.entry_type && not (Flags.has e.flags untrusted_hash) then e.content_hash else none

unfoldable pub metadata_known : Entry → Bool
metadata_known e =
    is_some e.mtime_unix && (is_some e.mode && not (Flags.has e.flags Flags.pax_unparsed))

-- The branch of `same_path` for equal trusted hashes.
abbrev pub same_content : Entry → Entry → ChangeKind × Reason
same_content old new =
    if not (metadata_known old) || not (metadata_known new)
    then (inconclusive, missing_metadata_evidence)
    else if eqb old.mtime_unix new.mtime_unix && eqb old.mode new.mode
    then (byte_identical, equal_content_and_metadata)
    else (metadata_only_changed, equal_content_different_metadata)

abbrev pub by_hashes : Option Bytes → Option Bytes → Entry → Entry → ChangeKind × Reason
by_hashes (some a) (some b) old new =
    if not (eqb a b)
    then (content_changed, different_content)
    else if old.size == new.size
    then same_content old new
    else (inconclusive, inconsistent_content_evidence)
by_hashes (some a) none old new = (inconclusive, missing_content_evidence)
by_hashes none b old new = (inconclusive, missing_content_evidence)

unfoldable pub same_path : Entry → Entry → ChangeKind × Reason
same_path old new =
    if not (is_file old.entry_type) || not (is_file new.entry_type)
    then (inconclusive, unsupported_entry_type)
    else by_hashes (trusted_hash old) (trusted_hash new) old new

abbrev pub uncertain_name : Entry → Bool
uncertain_name e = name_uncertain e.flags

-- What the absence of a path in the other snapshot proves.
unfoldable pub absence : SnapshotInfo → Bool → ChangeKind → ChangeKind × Reason
absence other is_compatible kind =
    if is_unavailable other.state || is_incomplete other.state
    then (inconclusive, other_snapshot_incomplete)
    else if not is_compatible
    then (inconclusive, incompatible_snapshots)
    else (kind, path_absent)
