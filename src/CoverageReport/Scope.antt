-- ===== src/CoverageReport/Scope.antt =====
-- src/core/coverage_report.rs: which sources a coverage report is about. Texts and paths are bytes.
use backupsage.Base.{
  suc, Bool, ◌||◌, List, [], ◌∷◌, ◌++◌, map, filter, any, Result, ok, err, ◌>>=◌, ◌>>◌, bail_if,
}
use backupsage.Base.Int.{ℤ, pos, negsuc}
use backupsage.Base.Order.{eqb, nat_ord, int_ord, list_ord}
use backupsage.Base.Sort.{sort_by}
use backupsage.Coverage.{Bytes}
use backupsage.Plan.{digits_within}
use backupsage.CoverageInput.{RegistrySource}

pub data ScopeError : Type 0 where
  no_source named_twice ambiguous : ScopeError

-- `i64::to_string`; an `i64` has at most 19 digits.
unfoldable pub display_id : ℤ → Bytes
display_id (pos n) = digits_within 20 n
display_id (negsuc n) = b'-' ∷ digits_within 20 (suc n)

unfoldable pub is_named : Bytes → RegistrySource → Bool
is_named w r = eqb (display_id r.source_id) w || eqb r.label w || eqb r.db_path w

-- `found`
abbrev pub ids_named : List RegistrySource → Bytes → List ℤ
ids_named registry w = map (λ (r : RegistrySource). r.source_id) (filter (is_named w) registry)

-- One value's sources, added to the ids so far.
unfoldable pub add_found : List ℤ → List ℤ → Result ScopeError (List ℤ)
add_found ids [] = err no_source
add_found ids (one ∷ []) = do bail_if (any (eqb one) ids) named_twice; ok (ids ++ one ∷ [])
add_found ids (one ∷ other ∷ more) = err ambiguous

unfoldable pub resolve_from : List RegistrySource → List ℤ → List Bytes → Result ScopeError (List ℤ)
resolve_from registry ids [] = ok ids
resolve_from registry ids (w ∷ wanted) = do
  added ← add_found ids (ids_named registry w)
  resolve_from registry added wanted

unfoldable pub sort_ids : List ℤ → List ℤ
unfolding int_ord
sort_ids = sort_by {K = ℤ} (λ (i : ℤ). i)

unfoldable pub resolve : List RegistrySource → List Bytes → Result ScopeError (List ℤ)
resolve registry wanted = do ids ← resolve_from registry [] wanted; ok (sort_ids ids)

unfoldable pub select : List RegistrySource → List ℤ → List RegistrySource
select registry [] = registry
select registry (i ∷ ids) = filter (λ r. any (eqb r.source_id) (i ∷ ids)) registry
