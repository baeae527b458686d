-- ===== src/CoverageReport/ReportExamples.antt =====
-- A report on one group and one excluded row, with and without `--ext`.
use backupsage.Base.{
  ◌≡◌, refl, ◌+◌, ℕ, Bool, true, false, Option, none, some, List, [], ◌∷◌, Result, ok, is_ok,
  ok-of_is_ok,
}
use backupsage.Base.Int.{pos}
use backupsage.Coverage.{RowRef, ContentGroup, Coverage}
use backupsage.Coverage
use backupsage.Floors.{FloorReport, GroupFloor, default_params}
use backupsage.Floors
use backupsage.CoverageReport.Document.{CoverageScope, CoverageReport}
use backupsage.CoverageReport.Filter.{Glob}
use backupsage.CoverageReport.Run.{build_report}
use backupsage.CoverageReport.Narrowed.{widened, IsNarrower, build_report_narrows}

abbrev any_path : Glob
any_path path pattern = ok true

abbrev photo : RowRef
photo = record { source_id = pos 1; path_raw = b'a' ∷ b'.' ∷ b'J' ∷ []; file_id = pos 7 }

abbrev text : RowRef
text = record { source_id = pos 1; path_raw = b'b' ∷ b'.' ∷ b't' ∷ []; file_id = pos 8 }

abbrev floor_of : ℕ → RowRef → GroupFloor
floor_of hash row = record {
  content_hash = hash ∷ [];
  size = some 5;
  verdict = Floors.below_floor;
  only_copy = true;
  trusted_replicas = 1;
  untrusted_replicas = 0;
  protected_replicas = 0;
  unknown_sources = 0;
  copies =
      record {
        row = row;
        source_label = b'd' ∷ [];
        status = Floors.ok;
        counts = true;
        protected = false;
      }
      ∷ [];
  aliases = [];
}

abbrev engine_of : ℕ → RowRef → ContentGroup
engine_of hash row = record {
  content_hash = hash ∷ [];
  size = some 5;
  replicas = Coverage.exact 1;
  presence = [];
  copies = row ∷ [];
  aliases = [];
}

abbrev grouped : Coverage
grouped = record {
  sources = [];
  groups = engine_of 1 photo ∷ engine_of 2 text ∷ [];
  unknown_content = [];
  exclusions = [];
}

abbrev judged : FloorReport
judged = record {
  sources = [];
  groups = floor_of 1 photo ∷ floor_of 2 text ∷ [];
  excluded_groups = [];
  excluded_rows = record { row = text; reason = Coverage.symlink_entry } ∷ [];
  unknown_content = [];
  summary = record {
    min_copies = 2;
    groups = 2;
    meets = 0;
    below = 2;
    unclear = 0;
    only_copy = 2;
    protected_replicas = 0;
    excluded_groups = 0;
    shadowed_rows = 0;
    symlink_rows = 1;
    unmatched_hardlink_rows = 0;
    hardlink_aliases = 0;
    unknown_content_rows = 0;
  };
}

abbrev photos : CoverageScope
photos = record { floor = default_params; exts = (b'j' ∷ []) ∷ []; path_glob = none; kind = none }

narrow : (r : CoverageReport) × (build_report any_path "db" [] grouped judged photos none [] ≡ ok r)
unfolding build_report backupsage.CoverageReport.Filter.new_filter
    backupsage.CoverageReport.Report.report_groups backupsage.CoverageReport.Report.collect
    backupsage.CoverageReport.Report.in_report backupsage.CoverageReport.Report.engine_group
    backupsage.CoverageReport.Report.report_excluded_groups
    backupsage.CoverageReport.Report.report_unknowns
    backupsage.CoverageReport.Report.report_exclusions backupsage.CoverageReport.Filter.is_active
    backupsage.Base.Order.list_ord backupsage.Base.Order.compare_list backupsage.Base.Order.nat_ord
    backupsage.CoverageReport.Filter.any_matches backupsage.CoverageReport.Filter.matches
    backupsage.CoverageReport.Filter.matches_kind backupsage.CoverageReport.Filter.matches_ext
    backupsage.CoverageReport.Filter.has_ext backupsage.CoverageReport.Filter.clean_ext
    backupsage.CoverageReport.Filter.matches_glob
narrow = ok-of_is_ok (build_report any_path "db" [] grouped judged photos none []) refl

wide :
    (r : CoverageReport) × (build_report any_path "db" [] grouped judged (widened photos) none []
      ≡ ok r)
unfolding build_report backupsage.CoverageReport.Filter.new_filter
    backupsage.CoverageReport.Report.report_groups backupsage.CoverageReport.Report.collect
    backupsage.CoverageReport.Report.in_report backupsage.CoverageReport.Report.engine_group
    backupsage.CoverageReport.Report.report_excluded_groups
    backupsage.CoverageReport.Report.report_unknowns
    backupsage.CoverageReport.Report.report_exclusions backupsage.CoverageReport.Filter.is_active
    backupsage.Base.Order.list_ord backupsage.Base.Order.compare_list backupsage.Base.Order.nat_ord
wide = ok-of_is_ok (build_report any_path "db" [] grouped judged (widened photos) none []) refl

build_report_narrows_example :
    IsNarrower narrow.0 wide.0
    × (narrow.0.summary.groups
        ≡ narrow.0.summary.meets_floor + narrow.0.summary.below_floor
          + narrow.0.summary.inconclusive)
build_report_narrows_example =
    build_report_narrows any_path "db" [] grouped judged photos none [] narrow.0 wide.0 narrow.1
      wide.1
