-- ===== src/Dedup/Report.antt =====
-- src/core/report.rs: `DedupReport` and its parts; src/core/dedup.rs: the summary that `run_dedup`
-- builds.
use text.Mathlib.Text.{◌==◌ as str_eq}
use Prim.Native.String.{◌++◌ as str_append}
use backupsage.Base.{
  ℕ, String, Bool, true, false, not, ◌||◌, Option, none, some, List, [], ◌∷◌, map, any, filter,
  if◌then◌else◌,
}
use backupsage.Base.Int.{ℤ}
use backupsage.Base.Order.{eqb, int_ord}
use backupsage.Dedup.Types.{Group}
use backupsage.Dedup.Order.{DedupParams, ArchiveRow}

pub record ReportParams : Type 0 where
  pub exact : Bool
  pub near : Bool
  pub threshold : ℕ
  pub min_size : ℕ
  pub include_empty : Bool
  pub across_only : Bool
  pub keep_policy : String
  pub actionable_rule : String
  pub images_grouped_perceptually : Bool

pub record ReportArchive : Type 0 where
  pub archive_id : ℤ
  pub label : String
  pub source : String
  pub source_type : String
  pub status : String
  pub content_mode : String

pub record Summary : Type 0 where
  pub groups : ℕ
  pub duplicate_files : ℕ
  pub reclaimable_bytes : ℕ
  pub transitive_only_files : ℕ
  pub review_only_bytes : ℕ
  pub archives_offline : List String
  pub archives_incomplete : List String
  pub skipped_archives : List (String × String)
  pub images_without_phash : ℕ
  pub intra_archive_shadowed_bytes : ℕ
  pub near_buckets_skipped : ℕ

pub record DedupReport : Type 0 where
  pub version : ℕ
  pub params : ReportParams
  pub archives : List ReportArchive
  pub groups : List Group
  pub summary : Summary

unfoldable pub report_params : DedupParams → ReportParams
report_params p = record {
  exact = p.exact;
  near = p.near;
  threshold = p.threshold;
  min_size = p.min_size;
  include_empty = p.include_empty;
  across_only = p.across_only;
  keep_policy = "exact:newest-then-clean-path; near:resolution-then-size-then-newest";
  actionable_rule = "near:direct-to-keeper-within-threshold; exact:always; shadowed/hardlink:never";
  images_grouped_perceptually = p.near;
}

unfoldable pub report_archive : ArchiveRow → ReportArchive
report_archive a = record {
  archive_id = a.archive_id;
  label = a.label;
  source = a.source_path;
  source_type = a.source_type;
  status = a.status;
  content_mode = a.content_mode;
}

unfoldable pub in_scope : List ℤ → ArchiveRow → Bool
unfolding int_ord
in_scope scope a = any (λ id. eqb id a.archive_id) scope

-- The labels of the archives in a state.
unfoldable pub labels_with : String → List ArchiveRow → List String
labels_with status archives =
    map (λ (a : ArchiveRow). a.label) (filter (λ (a : ArchiveRow). str_eq a.status status) archives)

-- Why an archive contributes no rows, if it does not.
unfoldable pub skip_reason : ArchiveRow → Option (String × String)
skip_reason a =
    if str_eq a.status "v2-limited"
    then some (
      a.label,
      str_append "v2-limited — no hashes; run `backupsage index "
          (str_append a.source_path "` to upgrade"),
    )
    else if str_eq a.content_mode "metadata-only"
    then some (a.label, "metadata-only — no hashes; re-index with --mode full or search-only")
    else none

abbrev pub consing : Option (String × String) → List (String × String) → List (String × String)
consing none rest = rest
consing (some s) rest = s ∷ rest

unfoldable pub skipped_archives : List ArchiveRow → List (String × String)
skipped_archives [] = []
skipped_archives (a ∷ archives) = consing (skip_reason a) (skipped_archives archives)

abbrev is_empty {ℓ} : {A : Type ℓ} → List A → Bool
is_empty [] = true
is_empty _ = false

-- `DedupReport::has_skips`
unfoldable pub has_skips : DedupReport → Bool
has_skips r =
    not (is_empty r.summary.archives_offline)
    || (not (is_empty r.summary.archives_incomplete) || not (is_empty r.summary.skipped_archives))
