-- ===== src/CoverageReport/Words.antt =====
-- src/core/coverage_report.rs: the words of the document.
use backupsage.Base.{ℕ, String, Option, none, some, ◌∷◌}
use backupsage.Base.Int.{ℤ}
use backupsage.Coverage.{Bytes, SourceEvidence, Presence, UnknownContentReason, ExclusionReason}
use backupsage.Coverage
use backupsage.Floors.{SourceStatus, Verdict, GroupExclusionReason}
use backupsage.Floors
use backupsage.Diff.{to_hex}
use backupsage.CoverageInput.{LoadCode}
use backupsage.CoverageInput
use backupsage.CoverageReport.Document.{ReportPresence}

unfoldable pub evidence_str : SourceEvidence → String
evidence_str Coverage.complete = "complete"
evidence_str Coverage.incomplete = "incomplete"
evidence_str Coverage.unavailable = "unavailable"
evidence_str Coverage.no_content_hashes = "no_content_hashes"
evidence_str Coverage.unreachable = "unreachable"

unfoldable pub status_str : SourceStatus → String
status_str Floors.ok = "ok"
status_str Floors.incomplete = "incomplete"
status_str Floors.stale_index = "stale-index"
status_str Floors.db_missing = "db-missing"
status_str Floors.archive_missing = "archive-missing"

unfoldable pub verdict_str : Verdict → String
verdict_str Floors.meets_floor = "meets_floor"
verdict_str Floors.below_floor = "below_floor"
verdict_str Floors.inconclusive = "inconclusive"

unfoldable pub load_code_str : LoadCode → String
load_code_str CoverageInput.unknown_entry_type = "unknown_entry_type"
load_code_str CoverageInput.contradictory_content_mode = "contradictory_content_mode"
load_code_str CoverageInput.registry_status = "registry_status"
load_code_str CoverageInput.source_unverified = "source_unverified"

unfoldable pub group_reason_str : GroupExclusionReason → String
group_reason_str Floors.empty_content = "empty_content"
group_reason_str Floors.below_min_size = "below_min_size"

unfoldable pub unknown_reason_str : UnknownContentReason → String
unknown_reason_str Coverage.read_error = "read_error"
unknown_reason_str Coverage.unsupported_sparse = "unsupported_sparse"
unknown_reason_str Coverage.pax_unparsed = "pax_unparsed"
unknown_reason_str Coverage.not_hashed = "not_hashed"
unknown_reason_str Coverage.legacy_name_uncertain = "legacy_name_uncertain"

unfoldable pub exclusion_str : ExclusionReason → String
exclusion_str Coverage.shadowed = "shadowed"
exclusion_str Coverage.symlink_entry = "symlink"
exclusion_str Coverage.unmatched_hardlink = "unmatched_hardlink"

abbrev pub unknown_presence : ℤ → String → Option ℕ → ReportPresence
unknown_presence id reason rows = record {
  source_id = id;
  state = "unknown";
  copies = none;
  reason = some reason;
  unhashed_rows = rows;
}

unfoldable pub presence : ℤ → Presence → ReportPresence
presence id (Coverage.present copies) = record {
  source_id = id;
  state = "present";
  copies = some copies;
  reason = none;
  unhashed_rows = none;
}
presence id Coverage.absent = record {
  source_id = id;
  state = "absent";
  copies = none;
  reason = none;
  unhashed_rows = none;
}
presence id (Coverage.unknown Coverage.source_unavailable) =
    unknown_presence id "source_unavailable" none
presence id (Coverage.unknown Coverage.source_incomplete) =
    unknown_presence id "source_incomplete" none
presence id (Coverage.unknown Coverage.source_has_no_content_hashes) =
    unknown_presence id "source_has_no_content_hashes" none
presence id (Coverage.unknown Coverage.source_unreachable) =
    unknown_presence id "source_unreachable" none
presence id (Coverage.unknown (Coverage.unhashed_rows_may_match rows)) =
    unknown_presence id "unhashed_rows_may_match" (some rows)

unfoldable pub hash_str : Bytes → Bytes
hash_str h = b'b' ∷ b'3' ∷ b':' ∷ to_hex h
