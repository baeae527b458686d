-- ===== src/Coverage/Grouping.antt =====
-- src/core/coverage.rs: `presence_in`, the finished groups, and `group`.
use backupsage.Base.{
  ℕ, zero, suc, Bool, true, false, Option, none, some, if◌then◌else◌, List, [], ◌∷◌, map, any,
  count, length, flat_map, Result, ok, err, ◌>>=◌, ◌>>◌,
}
use backupsage.Base.Order.{eqb, int_ord, nat_ord, list_ord, pair_ord}
use backupsage.Base.SortedMap.{SortedMap, lookup}
use backupsage.Base.Sort.{sort_by}
use backupsage.Coverage.Types.{
  Bytes, SourceEvidence, complete, incomplete, unavailable, no_content_hashes, unreachable,
  CoverageSource, row_key, ReplicaCount, exact, at_least, source_unavailable, source_incomplete,
  source_has_no_content_hashes, source_unreachable, unhashed_rows_may_match, Presence, present,
  absent, unknown, SourcePresence, ContentGroup, Coverage, CoverageError, duplicate_source_id,
}
use backupsage.Coverage.Rows.{UnknownRows, could_match}
use backupsage.Coverage.Scan.{Building, Progress, scan_sources}

abbrev pub by_matches : ℕ → Presence
by_matches zero = absent
by_matches (suc n) = unknown (unhashed_rows_may_match (suc n))

-- The `match` on the evidence of a source without a copy.
unfoldable pub presence_without_copy : SourceEvidence → ℕ → Presence
presence_without_copy unavailable n = unknown source_unavailable
presence_without_copy unreachable n = unknown source_unreachable
presence_without_copy incomplete n = unknown source_incomplete
presence_without_copy no_content_hashes n = unknown source_has_no_content_hashes
presence_without_copy complete n = by_matches n

abbrev pub is_unreachable : SourceEvidence → Bool
is_unreachable unreachable = true
is_unreachable _ = false

unfoldable pub presence_in : CoverageSource → UnknownRows → Building → Option ℕ → Presence
unfolding presence_without_copy
presence_in source rows building size =
    if is_unreachable source.evidence
    then unknown source_unreachable
    else elim (lookup source.source_id building.copies) [
      | some copies ↦ present (length copies)
      | none ↦ presence_without_copy source.evidence (could_match rows size)
    ]

-- One entry for each source, with the unknown rows collected for it.
unfoldable pub presences :
    List CoverageSource → List UnknownRows → Building → Option ℕ → List SourcePresence
presences (s ∷ sources) (u ∷ rows) b size =
    record { source_id = s.source_id; presence = presence_in s u b size }
    ∷ presences sources rows b size
presences [] _ b size = []
presences (s ∷ sources) [] b size = []

abbrev pub is_present : SourcePresence → Bool
is_present p = elim p.presence [ present _ ↦ true | _ ↦ false ]

abbrev pub is_unknown : SourcePresence → Bool
is_unknown p = elim p.presence [ unknown _ ↦ true | _ ↦ false ]

-- Content has a length when exactly one was recorded.
abbrev pub agreed_size : SortedMap ℕ (Unit {0}) → Option ℕ
agreed_size [] = none
agreed_size ((n, _) ∷ []) = some n
agreed_size (_ ∷ _ ∷ _) = none

unfoldable pub replica_count : List SourcePresence → ReplicaCount
replica_count ps =
    if any is_unknown ps then at_least (count is_present ps) else exact (count is_present ps)

unfoldable pub finish_group :
    List CoverageSource → List UnknownRows → Bytes × Building → ContentGroup
unfolding replica_count
finish_group ordered unknown_rows (hash, b) =
    let size = agreed_size b.sizes in
    let presence = presences ordered unknown_rows b size in
    record {
      content_hash = hash;
      size = size;
      replicas = replica_count presence;
      presence = presence;
      copies = sort_by row_key (flat_map (λ e. e.1) b.copies);
      aliases = sort_by row_key b.aliases;
    }

unfoldable pub finish : List CoverageSource → Progress → Coverage
unfolding finish_group
finish ordered p = record {
  sources =
      map (λ s. record { source_id = s.source_id; label = s.label; evidence = s.evidence }) ordered;
  groups = map (finish_group ordered p.unknown_rows) p.groups;
  unknown_content = sort_by (λ u. row_key u.row) p.unknown_content;
  exclusions = sort_by (λ e. row_key e.row) p.exclusions;
}

-- `ordered.windows(2)`
unfoldable pub check_distinct : List CoverageSource → Result CoverageError (Unit {0})
check_distinct (a ∷ b ∷ rest) =
    let later = check_distinct (b ∷ rest) in
    if eqb a.source_id b.source_id then err (duplicate_source_id a.source_id) else later
check_distinct [] = ok tt
check_distinct (a ∷ []) = ok tt

abbrev pub no_progress : Progress
no_progress = record { groups = []; unknown_rows = []; unknown_content = []; exclusions = [] }

abbrev pub in_id_order : List CoverageSource → List CoverageSource
in_id_order sources = sort_by (λ s. s.source_id) sources

unfoldable pub group : List CoverageSource → Result CoverageError Coverage
unfolding check_distinct scan_sources finish
group sources = do
  check_distinct (in_id_order sources)
  p ← scan_sources (in_id_order sources) no_progress
  ok (finish (in_id_order sources) p)
