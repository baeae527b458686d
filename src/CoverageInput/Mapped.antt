-- ===== src/CoverageInput/Mapped.antt =====
-- src/core/coverage_input.rs: `map_source`, from one index to one source.
use text.Mathlib.Text.{◌==◌ as str_eq}
use backupsage.Base.{
  ℕ, ltb, String, Bool, true, false, not, ◌&&◌, Option, none, some, is_some, List, [], ◌∷◌, ◌++◌,
  any, if◌then◌else◌, Result, ok, err,
}
use backupsage.Base.Int.{ℤ}
use backupsage.Base.Order.{int_ord}
use backupsage.Base.SortedMap.{SortedMap, upsert}
use backupsage.Coverage.{Bytes, SourceEvidence, EntryKind, CoverageRow}
use backupsage.Coverage
use backupsage.Floors.{SourceStatus}
use backupsage.Floors
use backupsage.Diff.{SnapshotState, SourceCurrency, EntryType, Entry}
use backupsage.Diff
use backupsage.CoverageInput.Notes.{InputHealth}
use backupsage.CoverageInput.Types.{
  RegistrySource, LoadCode, unknown_entry_type, contradictory_content_mode, source_unverified,
  Unreadable, not_established, row_of_unknown_type, row_carries_hash, unreadable, last_recorded,
  LoadNote, LoadedSource, LoadedIndex,
}
use backupsage.CoverageInput.Readable.{currency_can_show_presence, OpenSource, source_readable}

-- Higher is less trusted.
unfoldable pub distrust : SourceStatus → ℕ
distrust Floors.ok = 0
distrust Floors.incomplete = 1
distrust Floors.stale_index = 2
distrust Floors.db_missing = 3
distrust Floors.archive_missing = 4

abbrev pub evidence_of_state : SnapshotState → SourceEvidence
evidence_of_state Diff.complete = Coverage.complete
evidence_of_state Diff.incomplete = Coverage.incomplete
evidence_of_state Diff.incompatible = Coverage.unavailable
evidence_of_state Diff.unavailable = Coverage.unavailable

abbrev pub is_unavailable : SourceEvidence → Bool
is_unavailable Coverage.unavailable = true
is_unavailable _ = false

abbrev pub kind_of_type : EntryType → Option EntryKind
kind_of_type Diff.file = some Coverage.file
kind_of_type Diff.hardlink = some Coverage.hardlink
kind_of_type Diff.symlink = some Coverage.symlink
kind_of_type Diff.unsupported = none

-- The variables of `map_source` that change.
pub record Mapping : Type 0 where
  pub evidence : SourceEvidence
  pub notes : List LoadNote
  pub rows : List CoverageRow
  pub kinds : SortedMap ℤ String

abbrev pub row_of : Entry → EntryKind → CoverageRow
row_of e kind = record {
  file_id = e.file_id;
  path_raw = e.path;
  entry = kind;
  size = some e.size;
  content_hash = e.content_hash;
  flags = e.flags;
}

abbrev pub with_kind : ℤ → Option String → SortedMap ℤ String → SortedMap ℤ String
with_kind id none kinds = kinds
with_kind id (some kind) kinds = upsert id (λ _. kind) kinds

-- The two ends of a round: an entry of an unknown type, and a row.
abbrev pub refuse : Entry → Mapping → Mapping
refuse e s = record s {
  notes =
      s.notes ++ record { code = unknown_entry_type; detail = row_of_unknown_type e.file_id } ∷ [];
  evidence = Coverage.unavailable;
}

abbrev pub push_entry : Entry → EntryKind → Mapping → Mapping
push_entry e kind s = record s {
  kinds = with_kind e.file_id e.kind s.kinds;
  rows = s.rows ++ row_of e kind ∷ [];
}

-- The loop over the entries; an entry of an unknown type ends it.
unfoldable pub map_entries : List Entry → Mapping → Mapping
map_entries [] s = s
map_entries (e ∷ es) s = elim (kind_of_type e.entry_type) [
  | none ↦ refuse e s
  | some kind ↦ map_entries es (push_entry e kind s)
]

abbrev pub started : SnapshotState → Mapping
started state = record { evidence = evidence_of_state state; notes = []; rows = []; kinds = [] }

unfoldable pub read_entries : SnapshotState → List Entry → Mapping
read_entries state es =
    if is_unavailable (evidence_of_state state)
    then started state
    else map_entries es (started state)

abbrev pub is_metadata_only : Option String → Bool
is_metadata_only none = false
is_metadata_only (some mode) = str_eq mode "metadata-only"

abbrev pub without_hashes : SourceEvidence → SourceEvidence
without_hashes Coverage.complete = Coverage.no_content_hashes
without_hashes evidence = evidence

unfoldable pub check_mode : Option String → Mapping → Mapping
check_mode mode s =
    if not (is_unavailable s.evidence) && is_metadata_only mode
    then (if any (λ (r : CoverageRow). is_some r.content_hash) s.rows
        then record s {
          notes =
              s.notes
              ++ record { code = contradictory_content_mode; detail = row_carries_hash } ∷ [];
          evidence = Coverage.unavailable;
        }
        else record s { evidence = without_hashes s.evidence })
    else s

-- An unusable index hands on no rows.
unfoldable pub clear_unavailable : Mapping → Mapping
clear_unavailable s = if is_unavailable s.evidence then record s { rows = []; kinds = [] } else s

unfoldable pub shown_present :
    OpenSource → SourceCurrency → InputHealth → Result Unreadable (Unit {0})
shown_present open_source currency health =
    if currency_can_show_presence currency
    then source_readable open_source health.source health.source_type
    else err (not_established currency)

abbrev pub unless_shown : Result Unreadable (Unit {0}) → Mapping → Mapping
unless_shown (ok _) s = s
unless_shown (err why) s = record s {
  notes = s.notes ++ record { code = source_unverified; detail = unreadable why } ∷ [];
  evidence = Coverage.unreachable;
}

unfoldable pub check_presence : OpenSource → SourceCurrency → InputHealth → Mapping → Mapping
check_presence open_source currency health s =
    if is_unavailable s.evidence
    then s
    else unless_shown (shown_present open_source currency health) s

abbrev pub ok_unless_incomplete : SourceEvidence → SourceStatus
ok_unless_incomplete Coverage.incomplete = Floors.incomplete
ok_unless_incomplete _ = Floors.ok

abbrev pub status_of_currency : SourceCurrency → SourceEvidence → SourceStatus
status_of_currency Diff.stale evidence = Floors.stale_index
status_of_currency Diff.stat_matches evidence = ok_unless_incomplete evidence
status_of_currency Diff.directory_unverified evidence = ok_unless_incomplete evidence
status_of_currency Diff.not_checked evidence = Floors.archive_missing
status_of_currency Diff.offline evidence = Floors.archive_missing
status_of_currency Diff.denied evidence = Floors.archive_missing

-- The trust that reading the index and the source showed.
unfoldable pub live_status : SourceCurrency → SourceEvidence → SourceStatus
live_status currency Coverage.unavailable = Floors.db_missing
live_status currency Coverage.unreachable = Floors.archive_missing
live_status currency Coverage.complete = status_of_currency currency Coverage.complete
live_status currency Coverage.incomplete = status_of_currency currency Coverage.incomplete
live_status currency Coverage.no_content_hashes =
    status_of_currency currency Coverage.no_content_hashes

-- The registry may only lower trust; its note is given the entry's status.
unfoldable pub settle_status :
    Option String → Option SourceStatus → SourceStatus → SourceStatus × List LoadNote
settle_status said none live = (live, [])
settle_status said (some recorded) live =
    if ltb (distrust live) (distrust recorded)
    then (recorded, record { code = LoadCode.registry_status; detail = last_recorded said } ∷ [])
    else (live, [])

-- All that is settled before the status.
unfoldable pub mapping_of : OpenSource → LoadedIndex → Mapping
mapping_of open_source loaded =
    let info = (loaded.snapshot).info in
    check_presence open_source info.source_currency loaded.health (
      clear_unavailable (
        check_mode (loaded.health).content_mode
          (read_entries info.state (loaded.snapshot).entries)))

unfoldable pub map_source :
    OpenSource → RegistrySource → Option SourceStatus → LoadedIndex → LoadedSource
map_source open_source entry registry loaded =
    let s = mapping_of open_source loaded in
    let live = live_status ((loaded.snapshot).info).source_currency s.evidence in
    let settled = settle_status entry.registry_status registry live in
    record {
      source_id = entry.source_id;
      label = entry.label;
      db_path = entry.db_path;
      registry_status = entry.registry_status;
      source = (loaded.health).source;
      source_type = (loaded.health).source_type;
      evidence = s.evidence;
      status = settled.0;
      index_notes = (loaded.health).notes;
      notes = s.notes ++ settled.1;
      rows = s.rows;
      kinds = s.kinds;
    }
