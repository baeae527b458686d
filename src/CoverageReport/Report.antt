-- ===== src/CoverageReport/Report.antt =====
-- src/core/coverage_report.rs: `build_report` and its summary.
use backupsage.Base.{
  String, Bool, true, false, Option, none, some, List, [], ◌∷◌, ◌++◌, map, any, length,
  if◌then◌else◌, Result, ok, err, ◌>>=◌,
}
use backupsage.Base.Int.{ℤ}
use backupsage.Base.Order.{eqb, nat_ord, int_ord, pair_ord, list_ord}
use backupsage.Base.Sort.{sort_by}
use backupsage.Coverage.{
  Bytes, RowRef, row_key, ReplicaCount, SourcePresence, ContentGroup, UnknownContent, Exclusion,
  Coverage,
}
use backupsage.Coverage
use backupsage.Floors.{counts_toward_floor, FloorCopy, GroupFloor, GroupExclusion}
use backupsage.Legacy.{from_utf8_lossy}
use backupsage.Diff.{to_hex}
use backupsage.CoverageInput.{LoadedSource, LoadNote, NoteDetail, InputNote, as_str}
use backupsage.CoverageReport.Document.{
  ReportNote, ReportSource, ReportReplicas, ReportPresence, ReportCopy, ReportRow, ReportGroup,
  ReportExcludedGroup, ReportUnknownRow, ReportExcludedRow,
}
use backupsage.CoverageReport.Words.{
  evidence_str, status_str, verdict_str, load_code_str, group_reason_str, unknown_reason_str,
  exclusion_str, presence, hash_str,
}
use backupsage.CoverageReport.Filter.{
  ReportError, ungrouped_content, Glob, PathFilter, is_active, any_matches,
}

unfoldable pub row : RowRef → ReportRow
row r = record {
  source_id = r.source_id;
  path = from_utf8_lossy r.path_raw;
  path_bytes = to_hex r.path_raw;
  file_id = r.file_id;
}

unfoldable pub rows_sorted : List RowRef → List ReportRow
rows_sorted rows = map row (sort_by row_key rows)

abbrev pub report_copy : FloorCopy → ReportCopy
report_copy c = record {
  source_id = c.row.source_id;
  label = c.source_label;
  path = from_utf8_lossy c.row.path_raw;
  path_bytes = to_hex c.row.path_raw;
  file_id = c.row.file_id;
  status = status_str c.status;
  counts_toward_floor = c.counts;
  protected = c.protected;
}

unfoldable pub copies : List FloorCopy → List ReportCopy
copies cs = map report_copy (sort_by (λ (c : FloorCopy). row_key c.row) cs)

abbrev pub index_note : InputNote → ReportNote String
index_note n = record { code = as_str n.code; detail = n.detail }

abbrev pub load_note : LoadNote → ReportNote NoteDetail
load_note n = record { code = load_code_str n.code; detail = n.detail }

unfoldable pub report_source : List ℤ → LoadedSource → ReportSource
report_source protected s = record {
  source_id = s.source_id;
  label = s.label;
  db_path = from_utf8_lossy s.db_path;
  db_path_bytes = to_hex s.db_path;
  source = s.source;
  source_type = s.source_type;
  registry_status = s.registry_status;
  evidence = evidence_str s.evidence;
  status = status_str s.status;
  counts_toward_floor = counts_toward_floor s.status;
  protected = any (eqb s.source_id) protected;
  rows = length s.rows;
  index_notes = map index_note s.index_notes;
  notes = map load_note s.notes;
}

-- `engine_groups.get`: of two groups with one hash the later one is in the map.
unfoldable pub engine_group : Bytes → List ContentGroup → Option ContentGroup
engine_group hash [] = none
engine_group hash (g ∷ gs) = elim (engine_group hash gs) [
  | some later ↦ some later
  | none ↦ if eqb g.content_hash hash then some g else none
]

abbrev pub replicas_of : ReplicaCount → ReportReplicas
replicas_of (Coverage.exact n) = record { observed = n; exact = true }
replicas_of (Coverage.at_least n) = record { observed = n; exact = false }

abbrev pub report_presence : SourcePresence → ReportPresence
report_presence p = presence p.source_id p.presence

abbrev pub presences : List SourcePresence → List ReportPresence
presences ps = sort_by (λ (p : ReportPresence). p.source_id) (map report_presence ps)

unfoldable pub report_group : GroupFloor → ContentGroup → ReportGroup
report_group g engine = record {
  content_hash = hash_str g.content_hash;
  size = g.size;
  verdict = verdict_str g.verdict;
  only_copy = g.only_copy;
  replicas = replicas_of engine.replicas;
  trusted_replicas = g.trusted_replicas;
  untrusted_replicas = g.untrusted_replicas;
  protected_replicas = g.protected_replicas;
  unknown_sources = g.unknown_sources;
  presence = presences engine.presence;
  copies = copies g.copies;
  aliases = rows_sorted g.aliases;
}

-- The rows of a group, the copies first.
abbrev pub rows_of : List FloorCopy → List RowRef → List RowRef
rows_of cs aliases = map (λ (c : FloorCopy). c.row) cs ++ aliases

-- Whether what has these rows is in the report.
unfoldable pub in_report : Glob → PathFilter → List RowRef → Result ReportError Bool
in_report glob f rows = if is_active f then any_matches glob f rows else ok true

abbrev pub grouped_by : GroupFloor → Option ContentGroup → Result ReportError ReportGroup
grouped_by g none = err ungrouped_content
grouped_by g (some engine) = ok (report_group g engine)

abbrev pub report_excluded : GroupExclusion → ReportExcludedGroup
report_excluded g = record {
  content_hash = hash_str g.content_hash;
  size = g.size;
  reason = group_reason_str g.reason;
  copies = copies g.copies;
  aliases = rows_sorted g.aliases;
}

abbrev pub report_unknown : UnknownContent → ReportUnknownRow
report_unknown u = record { row = row u.row; size = u.size; reason = unknown_reason_str u.reason }

abbrev pub report_exclusion : Exclusion → ReportExcludedRow
report_exclusion e = record { row = row e.row; reason = exclusion_str e.reason }

-- A round of a loop: `continue`, or a `push`.
abbrev pub push_if {ℓ} :
    {B : Type ℓ}
    → Bool
    → Result ReportError B
    → Result ReportError (List B)
    → Result ReportError (List B)
push_if false first rest = rest
push_if true first rest = do y ← first; ys ← rest; ok (y ∷ ys)

-- The loops over the engine's lists: what the filter lets through, mapped.
module _ {A B : Type 0} (glob : Glob) (f : PathFilter) (rows : A → List RowRef)
    (build : A → Result ReportError B) where
  unfoldable pub collect : List A → Result ReportError (List B)
  collect [] = ok []
  collect (x ∷ xs) = do wanted ← in_report glob f (rows x); push_if wanted (build x) (collect xs)

unfoldable pub report_groups :
    Glob → PathFilter → List ContentGroup → List GroupFloor → Result ReportError (List ReportGroup)
report_groups glob f engine gs = do
  built ←
      collect glob f (λ (g : GroupFloor). rows_of g.copies g.aliases)
        (λ g. grouped_by g (engine_group g.content_hash engine)) gs
  ok (sort_by (λ (g : ReportGroup). g.content_hash) built)

unfoldable pub report_excluded_groups :
    Glob → PathFilter → List GroupExclusion → Result ReportError (List ReportExcludedGroup)
report_excluded_groups glob f gs = do
  built ←
      collect glob f (λ (g : GroupExclusion). rows_of g.copies g.aliases)
        (λ g. ok (report_excluded g)) gs
  ok (sort_by (λ (g : ReportExcludedGroup). g.content_hash) built)

unfoldable pub report_unknowns :
    Glob → PathFilter → List UnknownContent → Result ReportError (List ReportUnknownRow)
report_unknowns glob f us = do
  built ← collect glob f (λ (u : UnknownContent). u.row ∷ []) (λ u. ok (u.row, report_unknown u)) us
  ok (
      map (λ (e : RowRef × ReportUnknownRow). e.1)
        (sort_by (λ (e : RowRef × ReportUnknownRow). row_key e.0) built))

unfoldable pub report_exclusions :
    Glob → PathFilter → List Exclusion → Result ReportError (List ReportExcludedRow)
report_exclusions glob f es = do
  built ← collect glob f (λ (e : Exclusion). e.row ∷ []) (λ e. ok (e.row, report_exclusion e)) es
  ok (
      map (λ (e : RowRef × ReportExcludedRow). e.1)
        (sort_by (λ (e : RowRef × ReportExcludedRow). row_key e.0) built))
