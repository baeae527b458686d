-- ===== src/Floors/Examples.antt =====
-- A content group in two sources and perhaps in a third, and the floors' theorems at it.
use backupsage.Base.{
  count, ◌≡◌, ◌≢◌, refl, ◌+◌, ℕ, true, false, some, List, [], ◌∷◌, length, ok, ok-of_is_ok,
  traverse,
}
use backupsage.Base.Int.{ℤ, pos}
use backupsage.Base.Order.{int_ord}
use backupsage.Base.SortedMap.{lookup, upsert}
use backupsage.Coverage.{
  Presence, present, unknown, source_unavailable, SourcePresence, complete, unavailable,
  ContentGroup, exact, Coverage,
}
use backupsage.Floors.Types.{
  SourceStatus, stale_index, archive_missing, counts_toward_floor, FloorParams, meets_floor,
  below_floor, inconclusive, GroupFloor, FloorReport,
}
use backupsage.Floors.Evaluate.{
  Designations, tally, tally_one, Tally, verdict_of, floor_copy, floor_of, judge_group, judge_by,
  exclude_group, out_of_scope, floor_source, designate, collect_statuses, first_missing, labels_of,
  collect_protected, evaluate,
}
use backupsage.Floors.Verdicts.{present_stays, found, verdict_final, all_absent, inconclusive_open}
use backupsage.Floors.Totals.{summary_totals, has_enough, may_have_enough, lacks_copies}
use backupsage.Floors.Counts.{IsCounted, judge_group_counts}

abbrev designations : Designations
designations = record {
  status_of = (pos 1, SourceStatus.ok) ∷ (pos 2, stale_index) ∷ (pos 3, archive_missing) ∷ [];
  labels = (pos 1, b'd' ∷ []) ∷ (pos 2, b't' ∷ []) ∷ (pos 3, b'c' ∷ []) ∷ [];
  protected_ids = (pos 1, tt) ∷ [];
}

abbrev holders : Presence → List SourcePresence
holders third =
    record { source_id = pos 1; presence = present 2 }
    ∷ record { source_id = pos 2; presence = present 1 }
    ∷ record { source_id = pos 3; presence = third }
    ∷ []

abbrev content : ContentGroup
content = record {
  content_hash = 7 ∷ [];
  size = some 5;
  replicas = exact 2;
  presence = holders (unknown source_unavailable);
  copies = record { source_id = pos 1; path_raw = 97 ∷ []; file_id = pos 4 } ∷ [];
  aliases = [];
}

abbrev at_least : ℕ → FloorParams
at_least n = record { min_copies = n; min_size = 0; include_empty = false }

abbrev judged_as : FloorParams → Tally → GroupFloor
judged_as p t = floor_of p content t (
    record {
      row = record { source_id = pos 1; path_raw = 97 ∷ []; file_id = pos 4 };
      source_label = b'd' ∷ [];
      status = SourceStatus.ok;
      counts = true;
      protected = true;
    }
    ∷ [])

abbrev open_tally : Tally
open_tally = record { trusted = 1; untrusted = 1; unknown_sources = 1; protected = 1 }

abbrev closed_tally : Tally
closed_tally = record { trusted = 1; untrusted = 2; unknown_sources = 0; protected = 1 }

judged_once : judge_group designations (at_least 1) content ≡ ok (judged_as (at_least 1) open_tally)
unfolding judge_group tally tally_one lookup int_ord traverse floor_copy counts_toward_floor
judged_once = refl

judged_again :
    judge_group designations (at_least 1) (record content { presence = holders (present 1) })
    ≡ ok (judged_as (at_least 1) closed_tally)
unfolding judge_group tally tally_one lookup int_ord traverse floor_copy counts_toward_floor
judged_again = refl

judged_open : judge_group designations (at_least 2) content ≡ ok (judged_as (at_least 2) open_tally)
unfolding judge_group tally tally_one lookup int_ord traverse floor_copy counts_toward_floor
judged_open = refl

meets : meets_floor ≢ inconclusive
meets h = cc

verdict_final_example :
    (judged_as (at_least 1) closed_tally).verdict ≡ (judged_as (at_least 1) open_tally).verdict
unfolding verdict_of
verdict_final_example =
    verdict_final designations (at_least 1) content (holders (present 1))
      (judged_as (at_least 1) open_tally) (judged_as (at_least 1) closed_tally)
      ((refl, present_stays 2, (refl, present_stays 1, (refl, found source_unavailable 1, tt))))
      judged_once judged_again meets

inconclusive_open_example :
    (f' : GroupFloor) × (judge_group designations
        (at_least 2)
        (record content { presence = all_absent content.presence })
      ≡ ok f')
    × (f'.verdict ≡ below_floor)
unfolding verdict_of
inconclusive_open_example =
    inconclusive_open designations (at_least 2) content (judged_as (at_least 2) open_tally)
      judged_open refl

abbrev once : GroupFloor
once = judged_as (at_least 1) open_tally

judge_group_counts_example : IsCounted designations content once
judge_group_counts_example = judge_group_counts designations (at_least 1) content once judged_once

abbrev catalog : Coverage
catalog = record {
  sources =
      record { source_id = pos 1; label = b'd' ∷ []; evidence = complete }
      ∷ record { source_id = pos 2; label = b't' ∷ []; evidence = complete }
      ∷ record { source_id = pos 3; label = b'c' ∷ []; evidence = unavailable }
      ∷ [];
  groups = content ∷ record content { size = some 0; copies = [] } ∷ [];
  unknown_content = [];
  exclusions = [];
}

abbrev statuses : List (ℤ × SourceStatus)
statuses = (pos 3, archive_missing) ∷ (pos 1, SourceStatus.ok) ∷ (pos 2, stale_index) ∷ []

evaluated : (r : FloorReport) × (evaluate catalog statuses (pos 1 ∷ []) (at_least 2) ≡ ok r)
unfolding evaluate designate collect_statuses first_missing labels_of collect_protected judge_by
    judge_group exclude_group tally tally_one lookup upsert int_ord traverse floor_copy floor_source
    counts_toward_floor out_of_scope
evaluated = ok-of_is_ok (evaluate catalog statuses (pos 1 ∷ []) (at_least 2)) refl

summary_totals_example :
    (evaluated.0.summary.meets ≡ count (has_enough 2) evaluated.0.groups)
    × (evaluated.0.summary.below ≡ count (lacks_copies 2) evaluated.0.groups)
    × (evaluated.0.summary.unclear ≡ count (may_have_enough 2) evaluated.0.groups)
    × (evaluated.0.summary.meets + evaluated.0.summary.below + evaluated.0.summary.unclear
        ≡ evaluated.0.summary.groups)
    × (evaluated.0.summary.groups + evaluated.0.summary.excluded_groups ≡ 2)
    × (evaluated.0.summary.groups ≡ length evaluated.0.groups)
    × (evaluated.0.summary.excluded_groups ≡ length evaluated.0.excluded_groups)
summary_totals_example =
    summary_totals catalog statuses (pos 1 ∷ []) (at_least 2) evaluated.0 evaluated.1
