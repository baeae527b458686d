-- ===== src/Phash/Examples.antt =====
-- Distances of small hashes.
use backupsage.Base.{◌≡◌, refl, ◌≤◌, ◌⊎◌, arith}
use backupsage.Phash.{hamming}
use backupsage.Phash.Bands.{digits_from, band_recall}

hamming_two_bits : hamming 5 3 ≡ 2
unfolding hamming
hamming_two_bits = refl

near_hashes : hamming 5 3 ≤ 3
near_hashes = omega (arith, hamming_two_bits)

band_recall_example :
    (digits_from 0 5 ≡ digits_from 0 3)
    ⊎ (digits_from 16 5 ≡ digits_from 16 3)
    ⊎ (digits_from 32 5 ≡ digits_from 32 3)
    ⊎ (digits_from 48 5 ≡ digits_from 48 3)
band_recall_example = band_recall 5 3 near_hashes
