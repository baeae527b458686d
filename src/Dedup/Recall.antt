-- ===== src/Dedup/Recall.antt =====
-- src/core/dedup.rs: `mih_pairs` finds every pair within a distance of 3 when no bucket is skipped.
use backupsage.Base.{
  ◌≡◌, refl, sym, ap, subst, ◌∙◌, inl, inr, arith, ℕ, zero, suc, ◌+◌, ◌≤◌, leb, Bool, true, Option,
  none, some, List, [], ◌∷◌, ◌++◌, length, filter, filter-append,
}
use backupsage.Base.Order.{nat_ord, pair_ord}
use backupsage.Base.SortedMap.{lookup, values}
use backupsage.Phash.{hamming}
use backupsage.Phash.Bands.{band_recall}
use backupsage.Dedup.Near.{
  Hashed, Pair, band_value, buckets_from, Found, search_band, enumerated, nothing_found, mih_pairs,
}
use backupsage.Dedup.Searched.{
  is_marked, is_listed, IsLater, IsLater-refl, IsLater-trans, search_buckets-IsLater,
  search_bucket-marked, or_empty, in_band, lookup-buckets_from, search_buckets-at,
}

filter-around :
    (f : Hashed → Bool) (xs ys zs : List Hashed) (a b : Hashed)
    → f a ≡ true
    → f b ≡ true
    → filter f (xs ++ a ∷ (ys ++ b ∷ zs)) ≡ filter f xs ++ a ∷ (filter f ys ++ b ∷ filter f zs)
filter-around f xs ys zs a b at_a at_b =
    rw (filter-append f xs (a ∷ (ys ++ b ∷ zs)), at_a, filter-append f ys (b ∷ zs), at_b) refl

some_bucket :
    (o : Option (List Hashed)) (xs rest : List Hashed) (a : Hashed)
    → or_empty o ≡ xs ++ a ∷ rest
    → o ≡ some (xs ++ a ∷ rest)
some_bucket none [] rest a e = cc
some_bucket none (x ∷ xs) rest a e = cc
some_bucket (some es) xs rest a e = ap some e

module _ (threshold cap : ℕ) (xs ys zs : List Hashed) (a b : Hashed)
    (near : leb (hamming a.1 b.1) threshold ≡ true) where
  abbrev around : List Hashed
  around = xs ++ a ∷ (ys ++ b ∷ zs)

  search_band-marked :
      (band : ℕ) (s : Found)
      → band_value band a.1 ≡ band_value band b.1
      → (search_band threshold cap around band s).skipped ≡ 0
      → is_marked (a.0, b.0) (search_band threshold cap around band s) ≡ true
  unfolding search_band lookup
  search_band-marked band s same h =
      let f = in_band band (band_value band a.1) in
      let at_a : f a ≡ true = ground arith in
      let at_b : f b ≡ true = ground (arith, same) in
      let found =
        lookup-buckets_from band (band_value band a.1) [] around
        ∙ filter-around f xs ys zs a b at_a at_b in
      let bucket = filter f xs ++ a ∷ (filter f ys ++ b ∷ filter f zs) in
      search_buckets-at threshold cap (a.0, b.0) (band_value band a.1) bucket
        (buckets_from band [] around) s
        (search_bucket-marked threshold a b near cap (filter f xs) (filter f ys) (filter f zs))
        (some_bucket (lookup (band_value band a.1) (buckets_from band [] around)) (filter f xs)
          (filter f ys ++ b ∷ filter f zs) a found)
        h

search_band-IsLater :
    (threshold cap : ℕ) (p : Pair) (es : List Hashed) (band : ℕ) (s : Found)
    → IsLater p s (search_band threshold cap es band s)
unfolding search_band
search_band-IsLater threshold cap p es band s =
    search_buckets-IsLater threshold p cap (values (buckets_from band [] es)) s

enumerated-append :
    (i : ℕ) (xs rest : List ℕ)
    → enumerated i (xs ++ rest) ≡ enumerated i xs ++ enumerated (i + length xs) rest
enumerated-append i [] rest = ap (λ n. enumerated n rest) (omega arith)
enumerated-append i (x ∷ xs) rest =
    ap (λ es. (i, x) ∷ es)
      (enumerated-append (i + 1) xs rest
        ∙ ap (λ n. enumerated (i + 1) xs ++ enumerated n rest) (omega arith))

-- The state before a band.
abbrev before : ℕ → ℕ → List Hashed → ℕ → Found
before threshold cap es zero = nothing_found
before threshold cap es (suc n) = search_band threshold cap es n (before threshold cap es n)

module _ (threshold cap : ℕ) (es : List Hashed) (p : Pair) where
  until :
      (n m o : ℕ)
      → m ≡ o
      → IsLater p (before threshold cap es n) (before threshold cap es m)
      → IsLater p (before threshold cap es n) (before threshold cap es o)
  until n m o e h =
      subst (λ i. IsLater p (before threshold cap es n) (before threshold cap es i)) e h

  before-IsLater :
      (n k : ℕ) → IsLater p (before threshold cap es n) (before threshold cap es (k + n))
  before-IsLater n zero =
      until n n (0 + n) (omega arith) (IsLater-refl p (before threshold cap es n))
  before-IsLater n (suc k) = until n (suc (k + n)) (suc k + n) (omega arith) (
      IsLater-trans p _ _ _ (before-IsLater n k)
        (search_band-IsLater threshold cap p es (k + n) (before threshold cap es (k + n))))

  marked_listed :
      is_marked p (before threshold cap es 4) ≡ true
      → is_listed p (before threshold cap es 4).pairs ≡ true
  unfolding lookup
  marked_listed = (before-IsLater 0 4).lists (λ h. cc)

module _ (threshold cap : ℕ) (xs ys zs : List Hashed) (a b : Hashed)
    (near : leb (hamming a.1 b.1) threshold ≡ true) where
  abbrev ends : ℕ → Found
  ends n = before threshold cap (around threshold cap xs ys zs a b near) n

  -- The bands after one keep its marks.
  marked_at :
      (band k : ℕ)
      → band_value band a.1 ≡ band_value band b.1
      → (ends (k + suc band)).skipped ≡ 0
      → is_marked (a.0, b.0) (ends (k + suc band)) ≡ true
  marked_at band k same h =
      let later =
        before-IsLater threshold cap (around threshold cap xs ys zs a b near) (a.0, b.0) (suc band)
          k in
      later.marks (
        search_band-marked threshold cap xs ys zs a b near band (ends band) same
          (omega (arith, later.skips, h)))

  listed_of_near :
      hamming a.1 b.1 ≤ 3 → (ends 4).skipped ≡ 0 → is_listed (a.0, b.0) (ends 4).pairs ≡ true
  listed_of_near close h =
      marked_listed threshold cap (around threshold cap xs ys zs a b near) (a.0, b.0)
        (elim (band_recall a.1 b.1 close) [
          | inl e ↦ marked_at 3 0 e h
          | inr (inl e) ↦ marked_at 2 1 e h
          | inr (inr (inl e)) ↦ marked_at 1 2 e h
          | inr (inr (inr e)) ↦ marked_at 0 3 e h
        ])

enumerated_around :
    (xs ys zs : List ℕ) (x y : ℕ)
    → enumerated 0 (xs ++ x ∷ (ys ++ y ∷ zs))
      ≡ enumerated 0 xs
        ++ (length xs, x)
          ∷ (enumerated (length xs + 1) ys
              ++ (suc (length xs + length ys), y) ∷ enumerated (suc (length xs + length ys) + 1) zs)
enumerated_around xs ys zs x y =
    enumerated-append 0 xs (x ∷ (ys ++ y ∷ zs))
    ∙ ap (λ n. enumerated 0 xs ++ enumerated n (x ∷ (ys ++ y ∷ zs))) (omega arith)
    ∙ ap (λ t. enumerated 0 xs ++ (length xs, x) ∷ t)
        (enumerated-append (length xs + 1) ys (y ∷ zs)
          ∙ ap (λ n. enumerated (length xs + 1) ys ++ (n, y) ∷ enumerated (n + 1) zs) (omega arith))

-- When no bucket was too large, `mih_pairs` lists every two positions whose hashes differ in no
-- more bits than the threshold, for a threshold of at most 3.
pub mih_pairs_recall :
    (xs ys zs : List ℕ) (x y threshold cap : ℕ)
    → threshold ≤ 3
    → hamming x y ≤ threshold
    → (mih_pairs (xs ++ x ∷ (ys ++ y ∷ zs)) threshold cap).1 ≡ 0
    → is_listed
        (length xs, suc (length xs + length ys))
        (mih_pairs (xs ++ x ∷ (ys ++ y ∷ zs)) threshold cap).0
      ≡ true
unfolding mih_pairs
mih_pairs_recall xs ys zs x y threshold cap bound near whole =
    let split = enumerated_around xs ys zs x y in
    let first : Hashed = (length xs, x) in
    let second : Hashed = (suc (length xs + length ys), y) in
    subst (λ es. is_listed (first.0, second.0) (before threshold cap es 4).pairs ≡ true) (sym split)
      (listed_of_near threshold cap (enumerated 0 xs) (enumerated (length xs + 1) ys)
        (enumerated (suc (length xs + length ys) + 1) zs) first second (ground (arith, near))
        (omega (arith, bound, near))
        (subst (λ es. (before threshold cap es 4).skipped ≡ 0) split whole))
