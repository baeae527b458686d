-- ===== src/CoverageInput/Examples.antt =====
-- Two registered sources: one that can be opened, and one whose index is incompatible.
use backupsage.Base.{
  ◌≡◌, refl, ◌≤◌, ◌==◌, arith, ℕ, String, Bool, true, Option, none, some, List, [], ◌∷◌, Result, ok,
  count, is_ok, ok-of_is_ok, if◌then◌else◌,
}
use backupsage.Base.Int.{pos}
use backupsage.Base.Order.{IsSorted, int_ord}
use backupsage.Coverage.{Bytes, Coverage}
use backupsage.Diff.{SnapshotState, Entry}
use backupsage.Diff
use backupsage.CoverageInput.Types.{RegistrySource, LoadedSource, LoadedIndex}
use backupsage.CoverageInput.Readable.{OpenSource}
use backupsage.CoverageInput.Built.{LoadError, build, coverage}
use backupsage.CoverageInput.Fits.{HasDistinctEntryIds}
use backupsage.CoverageInput.Feeds.{loaded_ids, build_feeds}

abbrev pub opens : OpenSource
opens dir path = ok tt

abbrev entry : ℕ → Entry
entry id = record {
  file_id = pos id;
  path = id ∷ [];
  entry_type = Diff.file;
  link_target = none;
  size = 5;
  mtime_unix = none;
  mode = none;
  content_hash = some (id ∷ []);
  flags = 0;
  kind = some "text";
}

abbrev index : SnapshotState → LoadedIndex
index state = record {
  snapshot = record {
    info = record {
      index_uuid = none;
      schema_version = none;
      hash_algo = none;
      state = state;
      source_currency = Diff.stat_matches;
    };
    entries = entry 1 ∷ entry 2 ∷ [];
  };
  health = record {
    db_path = [];
    db_path_bytes = [];
    source = some (b'/' ∷ b'a' ∷ []);
    source_type = some "dir";
    content_mode = some "full";
    rows = 2;
    notes = [];
  };
}

abbrev registered : ℕ → RegistrySource
registered id = record {
  source_id = pos id;
  label = b'd' ∷ [];
  db_path = id ∷ [];
  registry_status = some "ok";
}

abbrev pub loader : Bytes → LoadedIndex
loader [] = index Diff.complete
loader (b ∷ _) = if b == 1 then index Diff.complete else index Diff.incompatible

loader-HasDistinctEntryIds : (path : Bytes) → HasDistinctEntryIds (loader path)
unfolding int_ord
loader-HasDistinctEntryIds [] i = ground arith
loader-HasDistinctEntryIds (b ∷ _) i = ground arith

abbrev pub registry : List RegistrySource
registry = registered 2 ∷ registered 1 ∷ []

built : (sources : List LoadedSource) × (build opens loader registry ≡ ok sources)
unfolding build backupsage.CoverageInput.Built.check_registered backupsage.Base.Sort.sort_by
    backupsage.Base.Sort.insert_by backupsage.CoverageInput.Built.load_all
    backupsage.CoverageInput.Built.registry_trust backupsage.CoverageInput.Built.note_uuid
built = ok-of_is_ok (build opens loader registry) refl

build_feeds_example : IsSorted (loaded_ids built.0) × ((c : Coverage) × (coverage built.0 ≡ ok c))
build_feeds_example = build_feeds opens loader registry built.0 loader-HasDistinctEntryIds built.1
