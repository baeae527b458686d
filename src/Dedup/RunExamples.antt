-- ===== src/Dedup/RunExamples.antt =====
-- A run over one archive with three images.
use backupsage.Base.{◌≡◌, refl, ◌&&◌, arith, false, some, List, [], ◌∷◌, filter, ok}
use backupsage.Base.Int.{pos}
use backupsage.Dedup.Types.{Row}
use backupsage.Dedup.Order.{default_dedup, ArchiveRow, resolve_scope}
use backupsage.Dedup.Report.{DedupReport, in_scope}
use backupsage.Dedup.Run.{Master, algorithms, have_other, run_dedup}
use backupsage.Dedup.Returns.{run_dedup_returns}
use backupsage.Dedup.Examples.{image, same_path}

abbrev disk : ArchiveRow
disk = record {
  archive_id = pos 1;
  id_text = "1";
  label = "disk";
  source_path = "disk.tar";
  source_type = "tar";
  status = "ok";
  content_mode = "full";
}

abbrev images : List Row
images = image 1 4 1023 ∷ image 2 2 1016 ∷ image 3 2 960 ∷ []

abbrev one_disk : Master
one_disk = record {
  list = ok (disk ∷ []);
  phash_algo = λ id. some "dct";
  fetch_scope = λ p scope. ok images;
  images_without_phash = λ scope. ok 0;
}

one_algorithm :
    (default_dedup.near
      && have_other (algorithms one_disk.phash_algo (filter (in_scope (pos 1 ∷ [])) (disk ∷ []))))
    ≡ false
unfolding algorithms in_scope
one_algorithm = refl

whole_scope : resolve_scope (disk ∷ []) [] ≡ ok (pos 1 ∷ [])
unfolding resolve_scope
whole_scope = refl

run_dedup_returns_example : (r : DedupReport) × (run_dedup same_path one_disk default_dedup ≡ ok r)
run_dedup_returns_example =
    run_dedup_returns same_path one_disk default_dedup (disk ∷ []) (pos 1 ∷ []) images 0
      (ground arith) refl whole_scope one_algorithm refl refl
