-- ===== src/Dedup/Sound.antt =====
-- src/core/dedup.rs: `mih_pairs` lists only pairs of near hashes.
use backupsage.Base.{
  ◌≡◌, subst, inl, inr, arith, ℕ, ◌≤◌, ltb, leb, not, ◌&&◌, some, is_some, List, [], ◌∷◌, ◌++◌,
  append_assoc, length, length-append, All, All-append, All-map, get_elem?, get_elem?-append,
  Bool-cases,
}
use backupsage.Base.Order.{nat_ord, pair_ord}
use backupsage.Base.SortedMap.{SortedMap, lookup, upsert, values, All-upsert_value}
use backupsage.Phash.{hamming}
use backupsage.Dedup.Near.{
  Hashed, Pair, band_value, push, buckets_from, Found, try_pair, try_with, try_all, search_bucket,
  search_buckets, search_band, enumerated, nothing_found, mih_pairs,
}

-- Two positions of the list, with hashes that differ in no more bits than the threshold.
abbrev pub IsNear : List ℕ → ℕ → Pair → Type 0
IsNear hashes threshold p =
    (x : ℕ) × (y : ℕ) × (get_elem? hashes p.0 ≡ some x)
    × (get_elem? hashes p.1 ≡ some y)
    × (hamming x y ≤ threshold)

module _ (hashes : List ℕ) (threshold : ℕ) where
  abbrev IsEntry : Hashed → Type 0
  IsEntry e = get_elem? hashes e.0 ≡ some e.1

  abbrev AllNear : Found → Type 0
  AllNear s = All (IsNear hashes threshold) s.pairs

  try_pair-AllNear :
      (a b : Hashed) (s : Found)
      → IsEntry a
      → IsEntry b
      → AllNear s
      → AllNear (try_pair threshold a b s)
  unfolding try_pair
  try_pair-AllNear a b s at_a at_b h =
      elim (Bool-cases
        (leb (hamming a.1 b.1) threshold && not (is_some (lookup (a.0, b.0) s.seen)))) [
          | inl e ↦ rw e (
              All-append (IsNear hashes threshold) s.pairs ((a.0, b.0) ∷ []) h
                ((a.1, b.1, at_a, at_b, ground (arith, e)), tt))
          | inr e ↦ rw e h
        ]

  try_with-AllNear :
      (a : Hashed) (es : List Hashed) (s : Found)
      → IsEntry a
      → All IsEntry es
      → AllNear s
      → AllNear (try_with threshold a es s)
  unfolding try_with
  try_with-AllNear a [] s at_a hs h = h
  try_with-AllNear a (b ∷ es) s at_a (at_b, hs) h =
      try_with-AllNear a es (try_pair threshold a b s) at_a hs (try_pair-AllNear a b s at_a at_b h)

  try_all-AllNear :
      (es : List Hashed) (s : Found) → All IsEntry es → AllNear s → AllNear (try_all threshold es s)
  unfolding try_all
  try_all-AllNear [] s hs h = h
  try_all-AllNear (a ∷ es) s (at_a, hs) h =
      try_all-AllNear es (try_with threshold a es s) hs (try_with-AllNear a es s at_a hs h)

  search_bucket-AllNear :
      (cap : ℕ) (es : List Hashed) (s : Found)
      → All IsEntry es
      → AllNear s
      → AllNear (search_bucket threshold cap es s)
  unfolding search_bucket
  search_bucket-AllNear cap es s hs h = elim (Bool-cases (ltb (length es) 2)) [
    | inl e ↦ rw e h
    | inr e ↦ rw e (elim (Bool-cases (ltb cap (length es))) [
      | inl f ↦ rw f h
      | inr f ↦ rw f (try_all-AllNear es s hs h)
    ])
  ]

  search_buckets-AllNear :
      (cap : ℕ) (bs : List (List Hashed)) (s : Found)
      → All (All IsEntry) bs
      → AllNear s
      → AllNear (search_buckets threshold cap bs s)
  unfolding search_buckets
  search_buckets-AllNear cap [] s hs h = h
  search_buckets-AllNear cap (b ∷ bs) s (hb, hs) h =
      search_buckets-AllNear cap bs (search_bucket threshold cap b s) hs
        (search_bucket-AllNear cap b s hb h)

  buckets_from-All :
      (band : ℕ) (m : SortedMap ℕ (List Hashed)) (es : List Hashed)
      → All (λ x. All IsEntry x.1) m
      → All IsEntry es
      → All (λ x. All IsEntry x.1) (buckets_from band m es)
  unfolding buckets_from
  buckets_from-All band m [] h hs = h
  buckets_from-All band m (e ∷ es) h (at_e, hs) =
      buckets_from-All band (upsert (band_value band e.1) (push e) m) es
        (All-upsert_value (All IsEntry) (band_value band e.1) (push e) m (at_e, tt)
          (λ v old. All-append IsEntry v (e ∷ []) old (at_e, tt)) h)
        hs

  search_band-AllNear :
      (cap : ℕ) (es : List Hashed) (band : ℕ) (s : Found)
      → All IsEntry es
      → AllNear s
      → AllNear (search_band threshold cap es band s)
  unfolding search_band
  search_band-AllNear cap es band s hs h =
      search_buckets-AllNear cap (values (buckets_from band [] es)) s
        (All-map (All IsEntry) (λ (x : ℕ × List Hashed). x.1) (buckets_from band [] es)
          (buckets_from-All band [] es tt hs))
        h

enumerated-All :
    (pre xs : List ℕ) → All (λ e. get_elem? (pre ++ xs) e.0 ≡ some e.1) (enumerated (length pre) xs)
enumerated-All pre [] = tt
enumerated-All pre (x ∷ xs) =
    let rest = enumerated-All (pre ++ x ∷ []) xs in
    (
      get_elem?-append pre x xs,
      subst (λ n. All (λ e. get_elem? (pre ++ x ∷ xs) e.0 ≡ some e.1) (enumerated n xs))
          (length-append pre (x ∷ []))
          (subst
            (λ ys. All (λ e. get_elem? ys e.0 ≡ some e.1) (enumerated (length (pre ++ x ∷ [])) xs))
            (append_assoc pre (x ∷ []) xs) rest),
    )

-- Every pair that `mih_pairs` lists is a pair of positions whose hashes differ in no more bits than
-- the threshold.
pub mih_pairs-IsNear :
    (hashes : List ℕ) (threshold cap : ℕ)
    → All (IsNear hashes threshold) (mih_pairs hashes threshold cap).0
unfolding mih_pairs
mih_pairs-IsNear hashes threshold cap =
    let es = enumerated 0 hashes in
    let hs = enumerated-All [] hashes in
    let search : (band : ℕ) (s : Found)
        → AllNear hashes threshold s
        → AllNear hashes threshold (search_band threshold cap es band s) =
      λ band s h. search_band-AllNear hashes threshold cap es band s hs h in
    search 3 _ (search 2 _ (search 1 _ (search 0 nothing_found tt)))
