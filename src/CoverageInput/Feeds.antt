-- ===== src/CoverageInput/Feeds.antt =====
-- src/core/coverage_input.rs: the loaded sources are input that the coverage engine accepts.
use backupsage.Base.{
  ◌≡◌, refl, sym, ap, subst, arith, String, List, [], ◌∷◌, map, All, All-map, ok, >>=-eq-ok,
  ok-injective, bail_if,
}
use backupsage.Base.Int.{ℤ}
use backupsage.Base.Order.{eqb, int_ord, IsSorted}
use backupsage.Base.Sort.{sort_by, rising, NeighboursDiffer, sort_by-IsSortedBy}
use backupsage.Coverage.{Bytes, CoverageSource, Coverage}
use backupsage.Coverage.Total.{group_ok_iff, IsConsistent, IsSorted-HasDistinctIds}
use backupsage.CoverageInput.Types.{RegistrySource, LoadedSource, LoadedIndex}
use backupsage.CoverageInput.Readable.{OpenSource}
use backupsage.CoverageInput.Mapped.{map_source}
use backupsage.CoverageInput.Built.{
  registered_twice, check_registered, trust_of, note_uuid, load_all, build, coverage_source,
  coverage,
}
use backupsage.CoverageInput.Fits.{HasDistinctEntryIds, map_source-IsConsistent}

abbrev pub loaded_ids : List LoadedSource → List ℤ
loaded_ids = map (λ (s : LoadedSource). s.source_id)

abbrev registry_ids : List RegistrySource → List ℤ
registry_ids = map (λ (r : RegistrySource). r.source_id)

module _ (open_source : OpenSource) (load_index : Bytes → LoadedIndex)
    (distinct : (path : Bytes) → HasDistinctEntryIds (load_index path)) where
  load_all-Consistent :
      (uuids : List (String × Bytes)) (registry : List RegistrySource) (sources : List LoadedSource)
      → load_all open_source load_index uuids registry ≡ ok sources
      → All (λ s. IsConsistent (coverage_source s)) sources
        × (loaded_ids sources ≡ registry_ids registry)
  unfolding load_all map_source
  load_all-Consistent uuids [] sources h =
      subst (λ t. All (λ s. IsConsistent (coverage_source s)) t × (loaded_ids t ≡ []))
        (ok-injective h) (tt, refl)
  load_all-Consistent uuids (entry ∷ rest) sources h =
      let (trust, e₁, h₁) = >>=-eq-ok (trust_of entry.registry_status) _ h in
      let loaded = load_index entry.db_path in
      let (noted, e₂, h₂) =
        >>=-eq-ok (note_uuid entry.db_path ((loaded.snapshot).info).index_uuid uuids) _ h₁ in
      let (later, e₃, h₃) = >>=-eq-ok (load_all open_source load_index noted rest) _ h₂ in
      let (consistent, ids) = load_all-Consistent noted rest later e₃ in
      subst
        (λ t.
          All (λ s. IsConsistent (coverage_source s)) t
          × (loaded_ids t ≡ registry_ids (entry ∷ rest)))
        (ok-injective h₃)
        (
          (
            map_source-IsConsistent open_source entry trust loaded (distinct entry.db_path),
            consistent,
          ),
          ap (λ t. entry.source_id ∷ t) ids,
        )

check_registered-Differ :
    (registry : List RegistrySource) {u : Unit {0}}
    → check_registered registry ≡ ok u
    → NeighboursDiffer (λ (r : RegistrySource). r.source_id) registry
unfolding check_registered
check_registered-Differ [] h = tt
check_registered-Differ (a ∷ []) h = tt
check_registered-Differ (a ∷ b ∷ rest) h =
    let (_, differ, later) =
      >>=-eq-ok (bail_if (eqb a.source_id b.source_id) (registered_twice a.source_id)) _ h in
    (ground (arith, differ), check_registered-Differ (b ∷ rest) later)

-- When `build` succeeds, and no index has two rows with one file id, the loaded sources stand in
-- rising id order, and the coverage engine groups them: it neither refuses them nor panics.
pub build_feeds :
    (open_source : OpenSource) (load_index : Bytes → LoadedIndex) (registry : List RegistrySource)
    (sources : List LoadedSource)
    → ((path : Bytes) → HasDistinctEntryIds (load_index path))
    → build open_source load_index registry ≡ ok sources
    → IsSorted (loaded_ids sources) × ((c : Coverage) × (coverage sources ≡ ok c))
unfolding build coverage
build_feeds open_source load_index registry sources distinct h =
    let ordered = sort_by (λ (r : RegistrySource). r.source_id) registry in
    let (_, checked, h₁) = >>=-eq-ok (check_registered ordered) _ h in
    let (consistent, ids) =
      load_all-Consistent open_source load_index distinct [] ordered sources h₁ in
    let sorted : IsSorted (loaded_ids sources) = subst IsSorted (sym ids) (
      rising (λ (r : RegistrySource). r.source_id) ordered (sort_by-IsSortedBy _ registry)
        (check_registered-Differ ordered checked)) in
    let (c, grouped) = (group_ok_iff (map coverage_source sources)).1 (
      IsSorted-HasDistinctIds (map coverage_source sources)
          (subst IsSorted (same_ids sources) sorted),
      All-map IsConsistent coverage_source sources consistent,
    ) in
    (sorted, (c, rw grouped refl))
  where
    same_ids :
        (sources : List LoadedSource)
        → loaded_ids sources
          ≡ map (λ (s : CoverageSource). s.source_id) (map coverage_source sources)
    same_ids [] = refl
    same_ids (s ∷ sources) = ap (λ t. s.source_id ∷ t) (same_ids sources)
