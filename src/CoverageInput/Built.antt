-- ===== src/CoverageInput/Built.antt =====
-- src/core/coverage_input.rs: the registry of ad-hoc indexes, and the loaded sources. Reading an
-- index (src/core/diff_input.rs, `load_index`), opening a source and resolving a path are
-- parameters.
use text.Mathlib.Text.{◌==◌ as str_eq}
use backupsage.Base.{
  ℕ, ◌+◌, String, Option, none, some, List, [], ◌∷◌, map, any, if◌then◌else◌, Result, ok, err,
  ◌>>=◌, ◌>>◌, bail_if,
}
use backupsage.Base.Int.{ℤ, pos}
use backupsage.Base.Order.{eqb, nat_ord, int_ord, list_ord}
use backupsage.Base.Sort.{sort_by}
use backupsage.Coverage.{Bytes, CoverageSource, CoverageError, Coverage, group}
use backupsage.Floors.{SourceStatus, FloorParams, FloorReport, FloorError, evaluate}
use backupsage.Floors
use backupsage.Legacy.{from_utf8_lossy}
use backupsage.CoverageInput.Types.{RegistrySource, LoadedSource, LoadedIndex}
use backupsage.CoverageInput.Readable.{OpenSource}
use backupsage.CoverageInput.Mapped.{map_source}

pub data LoadError : Type 0 where
  given_twice : Bytes → LoadError
  registered_twice : ℤ → LoadError
  unknown_status : String → LoadError
  same_index : (first second : Bytes) → String → LoadError
  coverage_failed : CoverageError → LoadError
  floors_failed : FloorError → LoadError

-- `None` where a status says nothing beyond what reading the index shows.
unfoldable pub registry_trust : String → Result LoadError (Option SourceStatus)
registry_trust status =
    if str_eq status "ok"
    then ok (some Floors.ok)
    else if str_eq status "incomplete"
    then ok (some Floors.incomplete)
    else if str_eq status "stale-index"
    then ok (some Floors.stale_index)
    else if str_eq status "db-missing"
    then ok (some Floors.db_missing)
    else if str_eq status "archive-missing"
    then ok (some Floors.archive_missing)
    else if str_eq status "stale-replica"
    then ok none
    else if str_eq status "v2-limited"
    then ok none
    else err (unknown_status status)

abbrev pub trust_of : Option String → Result LoadError (Option SourceStatus)
trust_of none = ok none
trust_of (some status) = registry_trust status

-- A path's identity and its last component, as the file system and std's `Path` give them.
pub record PathNames : Type 0 where
  pub canonical : Bytes → Option Bytes
  pub file_name : Bytes → Option Bytes

abbrev pub or_else : Bytes → Option Bytes → Bytes
or_else path none = path
or_else path (some p) = p

unfoldable pub adhoc_source : PathNames → ℕ → Bytes → RegistrySource
adhoc_source names id path = record {
  source_id = pos id;
  label = from_utf8_lossy (or_else path (names.file_name path));
  db_path = path;
  registry_status = none;
}

-- From the `i`th path on, with the identities seen so far.
unfoldable pub adhoc_from :
    PathNames → ℕ → List Bytes → List Bytes → Result LoadError (List RegistrySource)
unfolding list_ord nat_ord
adhoc_from names i seen [] = ok []
adhoc_from names i seen (path ∷ paths) =
    let identity = or_else path (names.canonical path) in
    do
      bail_if (any (eqb identity) seen) (given_twice path)
      rest ← adhoc_from names (i + 1) (identity ∷ seen) paths
      ok (adhoc_source names (i + 1) path ∷ rest)

unfoldable pub adhoc_registry : PathNames → List Bytes → Result LoadError (List RegistrySource)
adhoc_registry names paths = adhoc_from names 0 [] paths

-- Neighbours in id order have different ids.
unfoldable pub check_registered : List RegistrySource → Result LoadError (Unit {0})
unfolding int_ord
check_registered (a ∷ b ∷ rest) = do
  bail_if (eqb a.source_id b.source_id) (registered_twice a.source_id)
  check_registered (b ∷ rest)
check_registered [] = ok tt
check_registered (a ∷ []) = ok tt

abbrev pub path_of_uuid : String → List (String × Bytes) → Option Bytes
path_of_uuid uuid [] = none
path_of_uuid uuid ((u, path) ∷ uuids) = if str_eq u uuid then some path else path_of_uuid uuid uuids

abbrev pub insert_new :
    Bytes → String → List (String × Bytes) → Option Bytes → Result LoadError (List (String × Bytes))
insert_new path uuid uuids none = ok ((uuid, path) ∷ uuids)
insert_new path uuid uuids (some first) = err (same_index first path uuid)

-- `uuids.insert`, which refuses an index that was loaded under another name.
unfoldable pub note_uuid :
    Bytes → Option String → List (String × Bytes) → Result LoadError (List (String × Bytes))
note_uuid path none uuids = ok uuids
note_uuid path (some uuid) uuids = insert_new path uuid uuids (path_of_uuid uuid uuids)

module _ (open_source : OpenSource) (load_index : Bytes → LoadedIndex) where
  unfoldable pub load_all :
      List (String × Bytes) → List RegistrySource → Result LoadError (List LoadedSource)
  load_all uuids [] = ok []
  load_all uuids (entry ∷ rest) = do
    trust ← trust_of entry.registry_status
    let loaded = load_index entry.db_path in
        do
          noted ← note_uuid entry.db_path (((loaded.snapshot).info).index_uuid) uuids
          sources ← load_all noted rest
          ok (map_source open_source entry trust loaded ∷ sources)

  -- `build`
  unfoldable pub build : List RegistrySource → Result LoadError (List LoadedSource)
  unfolding int_ord
  build registry =
      let ordered = sort_by (λ (r : RegistrySource). r.source_id) registry in
      do check_registered ordered; load_all [] ordered

abbrev pub coverage_source : LoadedSource → CoverageSource
coverage_source s = record {
  source_id = s.source_id;
  label = s.label;
  evidence = s.evidence;
  rows = s.rows;
}

abbrev pub lifted {ℓ} :
    {E : Type 0} {A : Type ℓ} → (E → LoadError) → Result E A → Result LoadError A
lifted f (ok a) = ok a
lifted f (err e) = err (f e)

-- `LoadedCoverage::coverage`
unfoldable pub coverage : List LoadedSource → Result LoadError Coverage
coverage sources = lifted coverage_failed (group (map coverage_source sources))

-- `LoadedCoverage::statuses`
unfoldable pub statuses : List LoadedSource → List (ℤ × SourceStatus)
statuses = map (λ (s : LoadedSource). (s.source_id, s.status))

-- `LoadedCoverage::floors`
unfoldable pub floors : List LoadedSource → List ℤ → FloorParams → Result LoadError FloorReport
floors sources protected p = do
  c ← coverage sources
  lifted floors_failed (evaluate c (statuses sources) protected p)
