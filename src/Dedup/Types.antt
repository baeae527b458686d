-- ===== src/Dedup/Types.antt =====
-- src/core/dedup.rs: `Row` and its methods; src/core/report.rs: `Member` and `Group`.
use text.Mathlib.Text.{◌==◌ as str_eq}
use Prim.Native.String.{◌++◌ as str_append}
use backupsage.Base.{ℕ, String, Bool, Option, none, some, List}
use backupsage.Base.Int.{ℤ}
use backupsage.Store.Flags
use backupsage.Coverage.{Bytes}

-- A string that is only passed on, shown or compared is a `String`; a path is its UTF-8 bytes.
pub record Row : Type 0 where
  pub archive_id : ℤ
  pub archive_label : String
  pub archive_indexed_unix : Option ℤ
  pub file_id : ℤ
  pub path : Bytes
  pub path_raw : Option Bytes
  pub entry_type : String
  pub kind : String
  pub size : ℕ
  pub mtime_unix : Option ℤ
  pub exif_unix : Option ℤ
  pub exif_src : Option String
  pub content_hash : Option Bytes
  pub phash : Option ℤ
  pub img_w : Option ℕ
  pub img_h : Option ℕ
  pub flags : ℕ

unfoldable pub shadowed : Row → Bool
shadowed r = Flags.has r.flags Flags.shadowed

unfoldable pub sparse : Row → Bool
sparse r = Flags.has r.flags Flags.sparse

unfoldable pub is_hardlink : Row → Bool
is_hardlink r = str_eq r.entry_type "hardlink"

abbrev exif_tag : Option String → String
exif_tag none = "exif"
exif_tag (some s) = str_append "exif:" s

-- The first time that is there, with its tag: EXIF, then the file, then the archive.
abbrev first_ts : Option ℤ → Option ℤ → Option ℤ → Option String → Option ℤ × String
first_ts (some t) mtime indexed src = (some t, exif_tag src)
first_ts none (some t) indexed src = (some t, "tar-mtime")
first_ts none none (some t) src = (some t, "archive-date")
first_ts none none none src = (none, "none")

unfoldable pub best_ts : Row → Option ℤ × String
best_ts r = first_ts r.exif_unix r.mtime_unix r.archive_indexed_unix r.exif_src

pub record Member : Type 0 where
  pub archive_id : ℤ
  pub archive_label : String
  pub file_id : ℤ
  pub path : Bytes
  pub path_bytes : Option Bytes
  pub kind : String
  pub size : ℕ
  pub content_hash : Option Bytes
  pub phash : Option Bytes
  pub mtime_unix : Option ℤ
  pub exif_unix : Option ℤ
  pub best_ts_unix : Option ℤ
  pub best_ts_source : String
  pub width : Option ℕ
  pub height : Option ℕ
  pub hamming_to_keep : Option ℕ
  pub keep : Bool
  pub keep_reason : Option String
  pub actionable : Bool
  pub shadowed : Bool
  pub sparse : Bool
  pub hardlink_of : Option Bytes

pub record Group : Type 0 where
  pub group_id : ℕ
  pub match_kind : String
  pub max_distance : ℕ
  pub reclaimable_bytes : ℕ
  pub review_only_bytes : ℕ
  pub members : List Member
