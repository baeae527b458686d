-- ===== src/Format/Examples.antt =====
-- A short gzip file that is read one byte at a time.
use backupsage.Base.{◌≡◌, refl, arith, ℕ, zero, suc, [], ◌∷◌, Result, ok}
use backupsage.Coverage.{Bytes}
use backupsage.Format
use backupsage.Format.Sniffed.{IsRead, detect_file_lem}

abbrev one_byte : ℕ → Bytes → Result Format.FormatError (Bytes × Bytes)
one_byte zero s = ok ([], s)
one_byte (suc n) [] = ok ([], [])
one_byte (suc n) (b ∷ rest) = ok (b ∷ [], rest)

abbrev slow : Format.Reader Bytes
slow = record { read = one_byte }

abbrev remaining : Bytes → Bytes
remaining s = s

slow-IsRead : (n : ℕ) (s : Bytes) → IsRead slow remaining n s
slow-IsRead n [] = record {
  chunk = [];
  next = [];
  read_eq = refl;
  content_eq = refl;
  short = omega arith;
  ended = λ _. refl;
}
slow-IsRead n (b ∷ rest) = record {
  chunk = b ∷ [];
  next = rest;
  read_eq = refl;
  content_eq = refl;
  short = omega arith;
  ended = λ h. cc;
}

abbrev zipped : Bytes
zipped = 31 ∷ 139 ∷ 8 ∷ []

detect_file_lem_example : Format.detect_file slow (ok zipped) ≡ Format.detect zipped
detect_file_lem_example = detect_file_lem slow remaining zipped slow-IsRead
