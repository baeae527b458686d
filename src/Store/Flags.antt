-- ===== src/Store/Flags.antt =====
-- src/core/store.rs, `mod flags`: the bits of `files.flags`. A flag word is the bit pattern of
-- the `i64`.
use backupsage.Base.{ℕ, ◌^◌, Bool, not, ◌==◌, bit_and}

abbrev pub read_error : ℕ
read_error = 4

abbrev pub sparse : ℕ
sparse = 8

abbrev pub shadowed : ℕ
shadowed = 16

abbrev pub pax_unparsed : ℕ
pax_unparsed = 64

abbrev pub lossy_path : ℕ
lossy_path = 2 ^ 20

-- `flags & mask != 0`
unfoldable pub has : ℕ → ℕ → Bool
has flags mask = not (bit_and flags mask == 0)
