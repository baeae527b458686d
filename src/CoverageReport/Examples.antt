-- ===== src/CoverageReport/Examples.antt =====
-- Two sources, named by id and by label.
use backupsage.Base.{◌≡◌, refl, ◌≤◌, ℕ, none, List, [], ◌∷◌, map, count, ok}
use backupsage.Base.Int.{ℤ, pos}
use backupsage.Base.Order.{eqb, int_ord}
use backupsage.Coverage.{Bytes}
use backupsage.CoverageReport
use backupsage.CoverageInput.{RegistrySource}
use backupsage.CoverageReport.Resolved.{resolve-Names}

abbrev source : ℕ → Bytes → RegistrySource
source id label = record { source_id = pos id; label = label; db_path = []; registry_status = none }

abbrev registry : List RegistrySource
registry = source 1 (b'a' ∷ []) ∷ source 2 (b'b' ∷ []) ∷ []

abbrev wanted : List Bytes
wanted = (b'b' ∷ []) ∷ (b'1' ∷ []) ∷ []

both : CoverageReport.resolve registry wanted ≡ ok (pos 1 ∷ pos 2 ∷ [])
unfolding CoverageReport.resolve CoverageReport.resolve_from CoverageReport.add_found
    CoverageReport.is_named CoverageReport.display_id CoverageReport.sort_ids
    backupsage.Base.Order.list_ord backupsage.Base.Order.compare_list backupsage.Plan.digits_within
    backupsage.Base.Order.nat_ord backupsage.Base.Sort.sort_by backupsage.Base.Sort.insert_by
both = refl

resolve-Names_example :
    (chosen : List ℤ) × (map (CoverageReport.ids_named registry) wanted ≡ map (λ i. i ∷ []) chosen)
    × (pos 1 ∷ pos 2 ∷ [] ≡ CoverageReport.sort_ids chosen)
    × ((i : ℤ) → count (eqb i) (pos 1 ∷ pos 2 ∷ []) ≤ 1)
resolve-Names_example = resolve-Names registry wanted (pos 1 ∷ pos 2 ∷ []) both
