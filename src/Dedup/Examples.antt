-- ===== src/Dedup/Examples.antt =====
-- A small near-duplicate group.
use backupsage.Base.{ℕ, none, some, List, [], ◌∷◌}
use backupsage.Base.Int.{pos}
use backupsage.Coverage.{Bytes}
use backupsage.Dedup.Types.{Row}
use backupsage.Dedup.Markers.{Chars}
use backupsage.Dedup.Keep.{Indexed, pick_keep}
use backupsage.Dedup.Keeper.{IsPicked, pick_keep_best}

abbrev pub image : ℕ → ℕ → ℕ → Row
image id width hash = record {
  archive_id = pos 1;
  archive_label = "disk";
  archive_indexed_unix = none;
  file_id = pos id;
  path = 97 ∷ [];
  path_raw = none;
  entry_type = "file";
  kind = "image";
  size = 5;
  mtime_unix = some (pos 100);
  exif_unix = none;
  exif_src = none;
  content_hash = some (id ∷ []);
  phash = some (pos hash);
  img_w = some width;
  img_h = some 3;
  flags = 0;
}

-- The third image is near the second but not near the first, which is kept.
abbrev chain : List Indexed
chain = (0, image 1 4 0) ∷ (1, image 2 2 7) ∷ (2, image 3 2 63) ∷ []

abbrev pub same_path : Bytes → Chars
same_path p = p

pick_keep_best_example : IsPicked same_path "near" chain (pick_keep same_path "near" chain)
pick_keep_best_example = pick_keep_best same_path "near" chain
