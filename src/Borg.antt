-- ===== src/Borg.antt =====
-- src/core/borg/operation.rs: the names that may reach Borg, and the command lines that are built
-- from them. A text is the list of its code points.
use Prim.Native.String.{String}
use Prim.Native.Char.{code}
use backupsage.Base.{
  ℕ, ◌==◌, leb, Bool, true, false, ◌&&◌, ◌||◌, List, [], ◌∷◌, ◌++◌, any, if◌then◌else◌, Result, ok,
  err,
}
use backupsage.Base.Order.{eqb, nat_ord, list_ord}
pub mod Paths
pub mod Names
pub mod Lines
mod Examples

abbrev pub Chars : Type 0
Chars = List ℕ

abbrev pub chars : String → Chars
chars String.[] = []
chars (String.◌∷◌ c s) = code c ∷ chars s

pub data BorgError : Type 0 where
  invalid_input : BorgError

abbrev pub locator : Chars
locator = chars "/proc/self/fd/9"

abbrev pub format : Chars
format = chars "{type}{mode}{uid}{gid}{size}{isomtime}{archiveid}{archivename}"

-- `char::is_control`, the category Cc.
abbrev pub is_control : ℕ → Bool
is_control c = leb c 31 || leb 127 c && leb c 159

-- `contains` of one of several characters
abbrev pub is_one_of : Chars → ℕ → Bool
is_one_of cs c = any (λ d. c == d) cs

abbrev pub is_nil : Chars → Bool
is_nil [] = true
is_nil (_ ∷ _) = false

abbrev pub put_first : ℕ → List Chars → List Chars
put_first c [] = (c ∷ []) ∷ []
put_first c (part ∷ parts) = (c ∷ part) ∷ parts

-- `split`: there is always a part, perhaps an empty one.
unfoldable pub split : ℕ → Chars → List Chars
split sep [] = [] ∷ []
split sep (c ∷ cs) = let parts = split sep cs in if c == sep then [] ∷ parts else put_first c parts

pub record ArchiveName : Type 0 where
  pub name : Chars

pub record RegularFilePath : Type 0 where
  pub path : Chars

abbrev pub is_checkpoint : Chars → Bool
is_checkpoint part = eqb part (chars "checkpoint")

unfoldable pub parse_archive_name : Chars → Result BorgError ArchiveName
parse_archive_name value =
    if is_nil value
      || any (is_one_of (chars ":/\\{}*?[]")) value
      || any is_control value
      || any (is_one_of (65533 ∷ [])) value
      || any is_checkpoint (split b'.' value)
    then err invalid_input
    else ok (record { name = value })

abbrev pub starts_at_root : Chars → Bool
starts_at_root [] = false
starts_at_root (c ∷ cs) = c == b'/'

-- A part that is empty, `.` or `..`.
abbrev pub is_special : Chars → Bool
is_special part = is_nil part || eqb part (chars ".") || eqb part (chars "..")

unfoldable pub parse_file_path : Chars → Result BorgError RegularFilePath
parse_file_path value =
    if is_nil value
      || starts_at_root value
      || any is_special (split b'/' value)
      || any (is_one_of (b'?' ∷ 65533 ∷ b'\\' ∷ [])) value
      || any is_control value
    then err invalid_input
    else ok (record { path = value })

-- An operation's profile; the snapshot that it borrows is left out.
pub data Operation : Type 0 where
  repository_metadata : Operation
  archive_entries : (archive : ArchiveName) → Operation
  extract_file : (archive : ArchiveName) (path : RegularFilePath) → Operation

abbrev pub located : ArchiveName → Chars
located a = locator ++ chars "::" ++ a.name

unfoldable pub argv : Operation → List Chars
argv repository_metadata =
    chars "list" ∷ chars "--json" ∷ chars "--bypass-lock" ∷ chars "--" ∷ locator ∷ []
argv (archive_entries a) =
    chars "list"
    ∷ chars "--json-lines"
    ∷ chars "--consider-part-files"
    ∷ chars "--bypass-lock"
    ∷ chars "--format"
    ∷ format
    ∷ chars "--"
    ∷ located a
    ∷ []
argv (extract_file a p) =
    chars "extract"
    ∷ chars "--stdout"
    ∷ chars "--consider-part-files"
    ∷ chars "--bypass-lock"
    ∷ chars "--"
    ∷ located a
    ∷ (chars "pf:" ++ p.path)
    ∷ []

unfoldable pub is_extract : Operation → Bool
is_extract repository_metadata = false
is_extract (archive_entries a) = false
is_extract (extract_file a p) = true
