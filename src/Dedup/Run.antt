-- ===== src/Dedup/Run.antt =====
-- src/core/dedup.rs: `run_dedup`. The master store's queries (src/core/master.rs, and SQL) are
-- parameters.
use text.Mathlib.Text.{◌==◌ as str_eq}
use backupsage.Base.{
  ℕ, ◌+◌, ltb, String, Bool, false, not, ◌&&◌, Option, none, some, List, [], ◌∷◌, ◌++◌, map, any,
  filter, length, Result, ok, err, ◌>>=◌, ◌>>◌, bail_if,
}
use backupsage.Base.Int.{ℤ}
use backupsage.Coverage.{Bytes}
use backupsage.Dedup.Types.{Row, Group}
use backupsage.Dedup.Markers.{Chars}
use backupsage.Dedup.Assemble.{Tally, assemble}
use backupsage.Dedup.Order.{DedupParams, ArchiveRow, ScopeError, resolve_scope, finish_groups}
use backupsage.Dedup.UnionFind.{Trouble}
use backupsage.Dedup.Gather.{RawGroup, gather}
use backupsage.Dedup.Report.{
  DedupReport, report_params, report_archive, in_scope, labels_with, skipped_archives,
}

abbrev pub max_threshold : ℕ
max_threshold = 3

-- `bail!` messages, the store's errors, and panics.
pub data DedupError : Type 0 where
  threshold_capped : DedupError
  bad_scope : ScopeError → DedupError
  algorithms_differ : DedupError
  store_failed : String → DedupError
  panicked : Trouble → DedupError

-- What `run_dedup` asks of the store. A failed query for an algorithm counts as none.
pub record Master : Type 0 where
  pub list : Result DedupError (List ArchiveRow)
  pub phash_algo : ℤ → Option String
  pub fetch_scope : DedupParams → List ℤ → Result DedupError (List Row)
  pub images_without_phash : List ℤ → Result DedupError ℕ

abbrev pub or_fail {ℓ} :
    {E : Type 0} {A : Type ℓ} → (E → DedupError) → Result E A → Result DedupError A
or_fail f (ok a) = ok a
or_fail f (err e) = err (f e)

-- The algorithms of the archives in scope.
unfoldable pub algorithms : (ℤ → Option String) → List ArchiveRow → List String
algorithms algo [] = []
algorithms algo (a ∷ archives) = elim (algo a.archive_id) [
  | none ↦ algorithms algo archives
  | some s ↦ s ∷ algorithms algo archives
]

abbrev pub have_other : List String → Bool
have_other [] = false
have_other (s ∷ ss) = any (λ t. not (str_eq t s)) ss

-- The groups of the report, and the counters that the loop over the raw groups adds to.
pub record Totals : Type 0 where
  pub groups : List Group
  pub duplicate_files : ℕ
  pub reclaimable_total : ℕ
  pub shadowed_bytes : ℕ
  pub transitive_only_files : ℕ
  pub review_only_total : ℕ

abbrev pub no_totals : Totals
no_totals = record {
  groups = [];
  duplicate_files = 0;
  reclaimable_total = 0;
  shadowed_bytes = 0;
  transitive_only_files = 0;
  review_only_total = 0;
}

unfoldable pub add_group : Option (Group × Tally) → Totals → Totals
add_group none s = s
add_group (some (g, t)) s = record {
  groups = s.groups ++ g ∷ [];
  duplicate_files = s.duplicate_files + t.duplicate_files;
  reclaimable_total = s.reclaimable_total + t.reclaimable;
  shadowed_bytes = s.shadowed_bytes + t.shadowed_bytes;
  transitive_only_files = s.transitive_only_files + t.transitive_only_files;
  review_only_total = s.review_only_total + t.review_only;
}

unfoldable pub assemble_all : (Bytes → Chars) → DedupParams → Totals → List RawGroup → Totals
assemble_all stem_of p s [] = s
assemble_all stem_of p s (raw ∷ rest) =
    assemble_all stem_of p (add_group (assemble stem_of p.across_only p.threshold raw.0 raw.1) s)
      rest

unfoldable pub report_of : DedupParams → List ArchiveRow → Totals → ℕ → ℕ → DedupReport
report_of p archives s unhashed buckets_skipped =
    let groups = finish_groups p s.groups in
    record {
      version = 1;
      params = report_params p;
      archives = map report_archive archives;
      groups = groups;
      summary = record {
        groups = length groups;
        duplicate_files = s.duplicate_files;
        reclaimable_bytes = s.reclaimable_total;
        transitive_only_files = s.transitive_only_files;
        review_only_bytes = s.review_only_total;
        archives_offline = labels_with "db-missing" archives;
        archives_incomplete = labels_with "incomplete" archives;
        skipped_archives = skipped_archives archives;
        images_without_phash = unhashed;
        intra_archive_shadowed_bytes = s.shadowed_bytes;
        near_buckets_skipped = buckets_skipped;
      };
    }

unfoldable pub run_dedup : (Bytes → Chars) → Master → DedupParams → Result DedupError DedupReport
run_dedup stem_of master p = do
  bail_if (ltb max_threshold p.threshold) threshold_capped
  registry ← master.list
  scope ← or_fail bad_scope (resolve_scope registry p.archives)
  let archives = filter (in_scope scope) registry in
      do
        bail_if (p.near && have_other (algorithms master.phash_algo archives)) algorithms_differ
        rows ← master.fetch_scope p scope
        let found = gather p rows in
            do
              raw ← or_fail panicked found.0
              unhashed ← master.images_without_phash scope
              ok (report_of p archives (assemble_all stem_of p no_totals raw) unhashed found.1)
