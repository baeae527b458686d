-- ===== src/CoverageInput/Readable.antt =====
-- src/core/coverage_input.rs: whether a source was shown readable. Opening the source is a
-- parameter: it tells why a file, or a directory, cannot be opened for reading.
use text.Mathlib.Text.{◌==◌ as str_eq}
use backupsage.Base.{
  String, Bool, true, false, not, ◌&&◌, ◌==◌, Option, none, some, [], ◌∷◌, if◌then◌else◌, Result,
  ok, err, ◌>>◌, bail_if,
}
use backupsage.Base.Order.{int_ord}
use backupsage.Coverage.{Bytes}
use backupsage.Diff.{SnapshotState, SourceCurrency, EntryType, Entry}
use backupsage.Diff
use backupsage.CoverageInput.Types.{
  Unreadable, no_source_path, lossy_path, relative_path, cannot_open,
}

-- Only a currency that observed the source can show that it is there.
unfoldable pub currency_can_show_presence : SourceCurrency → Bool
currency_can_show_presence Diff.stat_matches = true
currency_can_show_presence Diff.stale = true
currency_can_show_presence Diff.directory_unverified = true
currency_can_show_presence Diff.not_checked = false
currency_can_show_presence Diff.offline = false
currency_can_show_presence Diff.denied = false

-- U+FFFD, the mark of a lossy rendering, in UTF-8.
abbrev pub starts_with_mark : Bytes → Bool
starts_with_mark (a ∷ b ∷ c ∷ _) = a == 0xef && (b == 0xbf && c == 0xbd)
starts_with_mark _ = false

abbrev pub has_mark : Bytes → Bool
has_mark [] = false
has_mark (b ∷ bytes) = if starts_with_mark (b ∷ bytes) then true else has_mark bytes

abbrev pub is_absolute : Bytes → Bool
is_absolute [] = false
is_absolute (b ∷ _) = b == b'/'

-- Opens a file (`false`) or a directory (`true`) for reading.
abbrev pub OpenSource : Type 0
OpenSource = Bool → Bytes → Result String (Unit {0})

abbrev pub is_dir : Option String → Bool
is_dir none = false
is_dir (some t) = str_eq t "dir"

abbrev pub opened : Result String (Unit {0}) → Result Unreadable (Unit {0})
opened (ok _) = ok tt
opened (err why) = err (cannot_open why)

unfoldable pub source_readable :
    OpenSource → Option Bytes → Option String → Result Unreadable (Unit {0})
source_readable open_source none source_type = err no_source_path
source_readable open_source (some source) source_type = do
  bail_if (has_mark source) lossy_path
  bail_if (not (is_absolute source)) relative_path
  opened (open_source (is_dir source_type) source)
