-- ===== src/CoverageReport/RunExamples.antt =====
-- A run over a registry of two sources.
use backupsage.Base.{◌≡◌, refl, false, none, List, [], Result, ok, is_ok, ok-of_is_ok, All}
use backupsage.Floors.{default_params}
use backupsage.CoverageInput.{LoadedSource, RegistrySource}
use backupsage.CoverageInput.Examples.{opens, loader, registry}
use backupsage.CoverageReport.Document.{CoverageScope, CoverageReport}
use backupsage.CoverageReport.Run.{World, master, registry_of, run}
use backupsage.CoverageReport.Trusted.{IsBacked, CountsWhenBorneOut, run_trust}

abbrev two_sources : World
two_sources = record {
  load_registry = λ path. ok registry;
  names = record { canonical = λ path. none; file_name = λ path. none };
  load_index = loader;
  open_source = opens;
  glob = λ path pattern. ok false;
}

abbrev everything : CoverageScope
everything = record { floor = default_params; exts = []; path_glob = none; kind = none }

ran :
    (r : List LoadedSource × CoverageReport) × (run two_sources (master []) [] [] everything ≡ ok r)
unfolding run backupsage.CoverageReport.Run.registry_of backupsage.CoverageReport.Scope.resolve
    backupsage.CoverageReport.Scope.resolve_from backupsage.CoverageReport.Scope.sort_ids
    backupsage.CoverageReport.Scope.select backupsage.CoverageReport.Run.build_report
    backupsage.CoverageReport.Run.summarize backupsage.CoverageReport.Filter.new_filter
    backupsage.CoverageReport.Report.report_groups
    backupsage.CoverageReport.Report.report_excluded_groups
    backupsage.CoverageReport.Report.report_unknowns
    backupsage.CoverageReport.Report.report_exclusions backupsage.CoverageReport.Report.collect
    backupsage.CoverageReport.Report.in_report backupsage.CoverageReport.Filter.is_active
    backupsage.CoverageReport.Report.engine_group backupsage.CoverageInput.build
    backupsage.CoverageInput.check_registered backupsage.CoverageInput.load_all
    backupsage.CoverageInput.registry_trust backupsage.CoverageInput.note_uuid
    backupsage.CoverageInput.coverage backupsage.CoverageInput.statuses
    backupsage.CoverageInput.map_source backupsage.CoverageInput.settle_status
    backupsage.CoverageInput.distrust backupsage.CoverageInput.live_status
    backupsage.CoverageInput.mapping_of backupsage.CoverageInput.check_presence
    backupsage.CoverageInput.clear_unavailable backupsage.CoverageInput.check_mode
    backupsage.CoverageInput.read_entries backupsage.CoverageInput.map_entries
    backupsage.CoverageInput.shown_present backupsage.CoverageInput.currency_can_show_presence
    backupsage.CoverageInput.source_readable backupsage.Base.Sort.sort_by
    backupsage.Base.Sort.insert_by backupsage.Base.SortedMap.lookup backupsage.Base.SortedMap.upsert
    backupsage.Base.Order.list_ord backupsage.Base.Order.compare_list backupsage.Base.Order.nat_ord
    backupsage.Base.Order.int_ord backupsage.Coverage.group backupsage.Coverage.scan_source
    backupsage.Coverage.check_evidence backupsage.Coverage.latest_from backupsage.Coverage.scan_rows
    backupsage.Coverage.scan_row backupsage.Coverage.is_shadowed backupsage.Coverage.link_rows
    backupsage.Coverage.check_distinct backupsage.Coverage.finish backupsage.Coverage.finish_group
    backupsage.Coverage.presence_in backupsage.Coverage.presence_without_copy
    backupsage.Coverage.presences backupsage.Coverage.replica_count backupsage.Coverage.add
    backupsage.Coverage.could_match backupsage.Coverage.trusted_size
    backupsage.Coverage.unknown_reason backupsage.Coverage.add_copy backupsage.Coverage.add_unknown
    backupsage.Coverage.link_hash backupsage.Coverage.place backupsage.Coverage.scan_sources
    backupsage.Floors.evaluate backupsage.Floors.designate backupsage.Floors.collect_statuses
    backupsage.Floors.first_missing backupsage.Floors.labels_of backupsage.Floors.collect_protected
    backupsage.Floors.exclude_group backupsage.Floors.floor_copy backupsage.Floors.floor_source
    backupsage.Floors.judge_by backupsage.Floors.judge_group backupsage.Floors.out_of_scope
    backupsage.Floors.summarize backupsage.Floors.tally backupsage.Floors.tally_one
    backupsage.Floors.verdict_of backupsage.Floors.counts_toward_floor
    backupsage.Legacy.name_uncertain backupsage.Store.Flags.has backupsage.Base.traverse
    backupsage.Base.Order.pair_ord
ran = ok-of_is_ok (run two_sources (master []) [] [] everything) refl

run_trust_example :
    (known : List RegistrySource) × (registry_of two_sources (master []) ≡ ok known)
    × All (IsBacked ran.0.0) ran.0.1.sources
    × All (CountsWhenBorneOut two_sources known) ran.0.0
run_trust_example = run_trust two_sources (master []) [] [] everything ran.0.0 ran.0.1 ran.1
