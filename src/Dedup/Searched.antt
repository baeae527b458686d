-- ===== src/Dedup/Searched.antt =====
-- src/core/dedup.rs: what the loops of `mih_pairs` mark, skip and list.
use backupsage.Base.{
  ◌≡◌, refl, sym, ap, ◌∙◌, inl, inr, arith, ℕ, ◌≤◌, ◌==◌, ltb, leb, Bool, true, false, Option, none,
  some, is_some, List, [], ◌∷◌, ◌++◌, append-nil, append_assoc, length, filter, any-append,
  length-append, any, Bool-cases,
}
use backupsage.Base.Order.{eqb, eqb_iff, eqb_refl, nat_ord, pair_ord}
use backupsage.Base.SortedMap.{SortedMap, lookup, upsert, values, lookup-upsert}
use backupsage.Phash.{hamming}
use backupsage.Dedup.Near.{
  Hashed, Pair, band_value, push, buckets_from, Found, try_pair, try_with, try_all, search_bucket,
  search_buckets,
}

abbrev pub is_marked : Pair → Found → Bool
is_marked p s = is_some (lookup p s.seen)

-- Whether a pair is in the result.
abbrev pub is_listed : Pair → List Pair → Bool
is_listed p pairs = any (eqb p) pairs

-- A later state has the marks of an earlier one, and as many skipped buckets at least.
pub record IsLater (p : Pair) (s s' : Found) : Type 0 where
  pub marks : is_marked p s ≡ true → is_marked p s' ≡ true
  pub skips : s.skipped ≤ s'.skipped
  pub lists :
      (is_marked p s ≡ true → is_listed p s.pairs ≡ true)
      → is_marked p s' ≡ true
      → is_listed p s'.pairs ≡ true

pub IsLater-refl : (p : Pair) (s : Found) → IsLater p s s
IsLater-refl p s = record { marks = λ h. h; skips = omega arith; lists = λ l. l }

pub IsLater-trans : (p : Pair) (s t u : Found) → IsLater p s t → IsLater p t u → IsLater p s u
IsLater-trans p s t u f g = record {
  marks = λ h. g.marks (f.marks h);
  skips = omega (arith, f.skips, g.skips);
  lists = λ l. g.lists (f.lists l);
}

module _ (threshold : ℕ) where
  try_pair-IsLater : (p : Pair) (a b : Hashed) (s : Found) → IsLater p s (try_pair threshold a b s)
  unfolding try_pair
  try_pair-IsLater p a b s = record {
    marks =
        λ h. ground (arith, h, lookup-upsert (a.0, b.0) p (λ (o : Option (Unit {0})). tt) s.seen);
    skips = ground arith;
    lists = λ l m. ground (
      arith,
      l,
      m,
      lookup-upsert (a.0, b.0) p (λ (o : Option (Unit {0})). tt) s.seen,
      any-append (eqb p) s.pairs ((a.0, b.0) ∷ []),
    );
  }

  try_with-IsLater :
      (p : Pair) (a : Hashed) (es : List Hashed) (s : Found)
      → IsLater p s (try_with threshold a es s)
  unfolding try_with
  try_with-IsLater p a [] s = IsLater-refl p s
  try_with-IsLater p a (b ∷ es) s =
      IsLater-trans p s _ _ (try_pair-IsLater p a b s)
        (try_with-IsLater p a es (try_pair threshold a b s))

  try_all-IsLater : (p : Pair) (es : List Hashed) (s : Found) → IsLater p s (try_all threshold es s)
  unfolding try_all
  try_all-IsLater p [] s = IsLater-refl p s
  try_all-IsLater p (a ∷ es) s =
      IsLater-trans p s _ _ (try_with-IsLater p a es s)
        (try_all-IsLater p es (try_with threshold a es s))

  search_bucket-IsLater :
      (p : Pair) (cap : ℕ) (es : List Hashed) (s : Found)
      → IsLater p s (search_bucket threshold cap es s)
  unfolding search_bucket
  search_bucket-IsLater p cap es s = elim (Bool-cases (ltb (length es) 2)) [
    | inl e ↦ rw e (IsLater-refl p s)
    | inr e ↦ rw e (elim (Bool-cases (ltb cap (length es))) [
      | inl f ↦ rw f (record { marks = λ h. h; skips = omega arith; lists = λ l. l })
      | inr f ↦ rw f (try_all-IsLater p es s)
    ])
  ]

  pub search_buckets-IsLater :
      (p : Pair) (cap : ℕ) (bs : List (List Hashed)) (s : Found)
      → IsLater p s (search_buckets threshold cap bs s)
  unfolding search_buckets
  search_buckets-IsLater p cap [] s = IsLater-refl p s
  search_buckets-IsLater p cap (b ∷ bs) s =
      IsLater-trans p s _ _ (search_bucket-IsLater p cap b s)
        (search_buckets-IsLater p cap bs (search_bucket threshold cap b s))

  module _ (a b : Hashed) (near : leb (hamming a.1 b.1) threshold ≡ true) where
    abbrev pair : Pair
    pair = (a.0, b.0)

    try_pair-marked : (s : Found) → is_marked pair (try_pair threshold a b s) ≡ true
    unfolding try_pair
    try_pair-marked s =
        ground (
          arith,
          near,
          lookup-upsert pair pair (λ (o : Option (Unit {0})). tt) s.seen,
          eqb_refl pair,
        )

    try_with-marked :
        (ys zs : List Hashed) (s : Found)
        → is_marked pair (try_with threshold a (ys ++ b ∷ zs) s) ≡ true
    unfolding try_with
    try_with-marked [] zs s =
        (try_with-IsLater pair a zs (try_pair threshold a b s)).marks (try_pair-marked s)
    try_with-marked (y ∷ ys) zs s = try_with-marked ys zs (try_pair threshold a y s)

    try_all-marked :
        (xs ys zs : List Hashed) (s : Found)
        → is_marked pair (try_all threshold (xs ++ a ∷ (ys ++ b ∷ zs)) s) ≡ true
    unfolding try_all
    try_all-marked [] ys zs s =
        (try_all-IsLater pair (ys ++ b ∷ zs) (try_with threshold a (ys ++ b ∷ zs) s)).marks
          (try_with-marked ys zs s)
    try_all-marked (x ∷ xs) ys zs s =
        try_all-marked xs ys zs (try_with threshold x (xs ++ a ∷ (ys ++ b ∷ zs)) s)

    pub search_bucket-marked :
        (cap : ℕ) (xs ys zs : List Hashed) (s : Found)
        → (search_bucket threshold cap (xs ++ a ∷ (ys ++ b ∷ zs)) s).skipped ≡ 0
        → is_marked pair (search_bucket threshold cap (xs ++ a ∷ (ys ++ b ∷ zs)) s) ≡ true
    unfolding search_bucket
    search_bucket-marked cap xs ys zs s h = ground (
      arith,
      h,
      length-append xs (a ∷ (ys ++ b ∷ zs)),
      length-append ys (b ∷ zs),
      try_all-marked xs ys zs s,
    )

abbrev pub or_empty : Option (List Hashed) → List Hashed
or_empty none = []
or_empty (some es) = es

-- The entries of one bucket, in their order.
abbrev pub in_band : ℕ → ℕ → Hashed → Bool
in_band band v e = band_value band e.1 == v

push-append :
    (e : Hashed) (o : Option (List Hashed)) (rest : List Hashed)
    → push e o ++ rest ≡ or_empty o ++ e ∷ rest
push-append e none rest = refl
push-append e (some es) rest = append_assoc es (e ∷ []) rest

pub lookup-buckets_from :
    (band v : ℕ) (m : SortedMap ℕ (List Hashed)) (es : List Hashed)
    → or_empty (lookup v (buckets_from band m es))
      ≡ or_empty (lookup v m) ++ filter (in_band band v) es
unfolding buckets_from nat_ord
lookup-buckets_from band v m [] = sym (append-nil (or_empty (lookup v m)))
lookup-buckets_from band v m (e ∷ es) =
    lookup-buckets_from band v (upsert (band_value band e.1) (push e) m) es
    ∙ rw (lookup-upsert (band_value band e.1) v (push e) m)
        (elim (Bool-cases (eqb v (band_value band e.1))) [
          | inl same ↦
              let is_v : (band_value band e.1 == v) ≡ true = ground (arith, same) in
              let at : lookup (band_value band e.1) m ≡ lookup v m =
                ap (λ k. lookup k m) (sym ((eqb_iff v (band_value band e.1)).0 same)) in
              rw (same, is_v, at) (push-append e (lookup v m) (filter (in_band band v) es))
          | inr other ↦
              let is_other : (band_value band e.1 == v) ≡ false = ground (arith, other) in
              rw (other, is_other) refl
        ])

module _ (threshold cap : ℕ) (p : Pair) where
  -- A bucket of the map is searched.
  pub search_buckets-at :
      (v : ℕ) (bucket : List Hashed) (m : SortedMap ℕ (List Hashed)) (s : Found)
      → ((t : Found)
          → (search_bucket threshold cap bucket t).skipped ≡ 0
          → is_marked p (search_bucket threshold cap bucket t) ≡ true)
      → lookup v m ≡ some bucket
      → (search_buckets threshold cap (values m) s).skipped ≡ 0
      → is_marked p (search_buckets threshold cap (values m) s) ≡ true
  unfolding lookup search_buckets nat_ord
  search_buckets-at v bucket [] s marks found h = cc
  search_buckets-at v bucket ((k, x) ∷ m) s marks found h =
      let later =
        search_buckets-IsLater threshold p cap (values m) (search_bucket threshold cap x s) in
      ground (
        arith,
        later.marks,
        later.skips,
        marks s,
        h,
        found,
        search_buckets-at v bucket m (search_bucket threshold cap x s) marks,
      )
