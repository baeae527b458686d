-- ===== src/Format.antt =====
-- src/core/format.rs: which kind of archive a file is, by its first bytes.
use backupsage.Base.{
  ℕ, zero, suc, ◌-◌, ltb, leb, Bool, true, false, ◌&&◌, List, [], ◌∷◌, ◌++◌, length, take, drop,
  if◌then◌else◌, Result, ok, err, ◌>>=◌,
}
use backupsage.Base.Order.{eqb, nat_ord, list_ord}
use backupsage.Coverage.{Bytes}
pub mod Sniffed
mod Examples

pub data Format : Type 0 where
  zstd gzip plain_tar : Format

pub data FormatError : Type 0 where
  xz_unsupported bzip2_unsupported unrecognised cannot_open cannot_read : FormatError

abbrev pub zstd_magic : Bytes
zstd_magic = 40 ∷ 181 ∷ 47 ∷ 253 ∷ []

abbrev pub gzip_magic : Bytes
gzip_magic = 31 ∷ 139 ∷ []

abbrev pub xz_magic : Bytes
xz_magic = 253 ∷ 55 ∷ 122 ∷ 88 ∷ 90 ∷ 0 ∷ []

abbrev pub bzip2_magic : Bytes
bzip2_magic = b'B' ∷ b'Z' ∷ b'h' ∷ []

abbrev pub ustar : Bytes
ustar = b'u' ∷ b's' ∷ b't' ∷ b'a' ∷ b'r' ∷ []

abbrev pub tar_magic_offset : ℕ
tar_magic_offset = 257

-- `starts_with`
abbrev pub starts_with : Bytes → Bytes → Bool
starts_with magic head = eqb (take (length magic) head) magic

unfoldable pub detect : Bytes → Result FormatError Format
detect head =
    if starts_with zstd_magic head
    then ok zstd
    else if starts_with gzip_magic head
    then ok gzip
    else if starts_with xz_magic head
    then err xz_unsupported
    else if starts_with bzip2_magic head
    then err bzip2_unsupported
    else if leb 262 (length head) && eqb (take 5 (drop tar_magic_offset head)) ustar
    then ok plain_tar
    else err unrecognised

-- An open file: `read` asks for at most a number of bytes.
pub record Reader (S : Type 0) : Type 0 where
  pub read : ℕ → S → Result FormatError (Bytes × S)

abbrev pub is_nil : Bytes → Bool
is_nil [] = true
is_nil (_ ∷ _) = false

module _ {S : Type 0} (file : Reader S) where
  -- The loop that fills the buffer of 512 bytes, in at most as many rounds as `rounds`.
  unfoldable pub fill : (rounds : ℕ) → Bytes → S → Result FormatError Bytes
  fill zero filled s = ok filled
  fill (suc rounds) filled s =
      if ltb (length filled) 512
      then (do
        (chunk, s') ← file.read (512 - length filled) s
        let more = fill rounds (filled ++ chunk) s'
        if is_nil chunk then ok filled else more)
      else ok filled

  -- `opened` is what opening the file gave.
  unfoldable pub detect_file : Result FormatError S → Result FormatError Format
  detect_file opened = do s ← opened; head ← fill 512 [] s; detect head
