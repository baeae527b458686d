-- ===== src/Phash.antt =====
-- src/core/phash.rs: distances between perceptual hashes. (The hash itself is computed on floats
-- from a decoded image, and is not modelled.)
mod Digits
pub mod Bands
mod Examples
use backupsage.Base.{ℕ, zero, suc, ◌+◌, ◌/◌, ◌%◌, bit_xor, leb, Bool, ◌||◌}

-- The ones among the lowest `n` binary digits.
unfoldable pub ones : ℕ → ℕ → ℕ
ones zero x = 0
ones (suc n) x = x % 2 + ones n (x / 2)

-- `u64::count_ones`
unfoldable pub count_ones : ℕ → ℕ
unfolding ones
count_ones x = ones 64 x

-- Hamming distance between two hashes.
unfoldable pub hamming : ℕ → ℕ → ℕ
unfolding count_ones
hamming a b = count_ones (bit_xor a b)

-- Hashes of flat images, which near-duplicate search leaves out.
unfoldable pub is_trivial : ℕ → Bool
unfolding count_ones
is_trivial h = leb (count_ones h) 1 || leb 63 (count_ones h)
