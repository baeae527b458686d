-- ===== src/Dedup/Near.antt =====
-- src/core/dedup.rs: `mih_pairs`, the search for near pairs. A bucket map is walked in key order;
-- the code's `HashMap` leaves the order open.
use backupsage.Base.{
  ℕ, ◌+◌, ◌-◌, ◌*◌, ◌/◌, ◌%◌, ◌^◌, ltb, leb, not, ◌&&◌, Option, none, some, is_some, List, [], ◌∷◌,
  ◌++◌, length, if◌then◌else◌,
}
use backupsage.Base.Order.{nat_ord, pair_ord}
use backupsage.Base.SortedMap.{SortedMap, lookup, upsert, values}
use backupsage.Phash.{hamming}

-- An index into the hashes, with the hash.
abbrev pub Hashed : Type 0
Hashed = ℕ × ℕ

abbrev pub Pair : Type 0
Pair = ℕ × ℕ

-- `(h >> shift) & 0xFFFF`, for the band's shift.
abbrev pub band_value : ℕ → ℕ → ℕ
band_value band h = h / 2 ^ (48 - band * 16) % 2 ^ 16

abbrev pub push : Hashed → Option (List Hashed) → List Hashed
push e none = e ∷ []
push e (some es) = es ++ e ∷ []

unfoldable pub buckets_from :
    ℕ → SortedMap ℕ (List Hashed) → List Hashed → SortedMap ℕ (List Hashed)
buckets_from band m [] = m
buckets_from band m (e ∷ es) = buckets_from band (upsert (band_value band e.1) (push e) m) es

-- The pairs found, those seen, and the buckets skipped.
pub record Found : Type 0 where
  pub pairs : List Pair
  pub seen : SortedMap Pair (Unit {0})
  pub skipped : ℕ

-- One test of the inner loop. A pair that is seen already is not listed again.
unfoldable pub try_pair : ℕ → Hashed → Hashed → Found → Found
try_pair threshold a b s =
    if leb (hamming a.1 b.1) threshold && not (is_some (lookup (a.0, b.0) s.seen))
    then record s { pairs = s.pairs ++ (a.0, b.0) ∷ []; seen = upsert (a.0, b.0) (λ _. tt) s.seen }
    else s

unfoldable pub try_with : ℕ → Hashed → List Hashed → Found → Found
try_with threshold a [] s = s
try_with threshold a (b ∷ rest) s = try_with threshold a rest (try_pair threshold a b s)

unfoldable pub try_all : ℕ → List Hashed → Found → Found
try_all threshold [] s = s
try_all threshold (a ∷ rest) s = try_all threshold rest (try_with threshold a rest s)

unfoldable pub search_bucket : ℕ → ℕ → List Hashed → Found → Found
search_bucket threshold cap bucket s =
    if ltb (length bucket) 2
    then s
    else if ltb cap (length bucket)
    then record s { skipped = s.skipped + 1 }
    else try_all threshold bucket s

unfoldable pub search_buckets : ℕ → ℕ → List (List Hashed) → Found → Found
search_buckets threshold cap [] s = s
search_buckets threshold cap (bucket ∷ rest) s =
    search_buckets threshold cap rest (search_bucket threshold cap bucket s)

unfoldable pub search_band : ℕ → ℕ → List Hashed → ℕ → Found → Found
search_band threshold cap hashes band s =
    search_buckets threshold cap (values (buckets_from band [] hashes)) s

abbrev pub enumerated : ℕ → List ℕ → List Hashed
enumerated i [] = []
enumerated i (h ∷ hashes) = (i, h) ∷ enumerated (i + 1) hashes

abbrev pub nothing_found : Found
nothing_found = record { pairs = []; seen = []; skipped = 0 }

-- `mih_pairs`, with the buckets that it skipped.
unfoldable pub mih_pairs : List ℕ → ℕ → ℕ → List Pair × ℕ
mih_pairs hashes threshold cap =
    let es = enumerated 0 hashes in
    let s₀ = search_band threshold cap es 0 nothing_found in
    let s₁ = search_band threshold cap es 1 s₀ in
    let s₂ = search_band threshold cap es 2 s₁ in
    let s₃ = search_band threshold cap es 3 s₂ in (s₃.pairs, s₃.skipped)
