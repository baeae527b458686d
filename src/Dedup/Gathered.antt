-- ===== src/Dedup/Gathered.antt =====
-- src/core/dedup.rs: gathering the raw groups ends, and indexes nothing out of bounds; and what the
-- groups hold.
use mathlib.Core.List.{Memᴰ}
use backupsage.Base.{
  ◌≡◌, ◌⊎◌, refl, subst, ◌∙◌, zero, suc, inl, inr, arith, ℕ, ◌+◌, ◌<◌, Bool, true, false, Option,
  none, some, List, [], ◌∷◌, ◌++◌, map, length, length-map, filter, get_elem?, get_elem?-of_lt,
  set_elem, length-set_elem, if◌then◌else◌, All, All-imp, All-map, All-append, Result, ok, traverse,
  Bool-cases,
}
use backupsage.Base.Order.{nat_ord, list_ord}
use backupsage.Base.SortedMap.{SortedMap, values, upsert_entry-All}
use backupsage.Base.Members.{each_in, All-at, All-filter}
use backupsage.Coverage.{Bytes}
use backupsage.Dedup.Types.{Row}
use backupsage.Dedup.Keep.{Indexed}
use backupsage.Dedup.Order.{DedupParams}
use backupsage.Dedup.Near.{mih_pairs}
use backupsage.Dedup.UnionFind.{near_components}
use backupsage.Dedup.Sound.{mih_pairs-IsNear}
use backupsage.Dedup.Linked.{components_of_lem}
use backupsage.Dedup.Connected.{near-InRange}
use backupsage.Dedup.Gather.{
  RawGroup, indexed, is_near_image, local_hash, local_hashes, image_at, near_groups, mark_at,
  mark_group, mark_groups, push_row, add_hashed, is_grouped, by_hash, form_group, exact_groups,
  exact_part, near_part, gather,
}

-- A function that succeeds on each element, with a fact about what it gives.
traverse_total :
    {E A B : Type 0} (f : A → Result E B) (P : A → Type 0) (Q : B → Type 0)
    → ((a : A) → P a → (b : B) × (f a ≡ ok b) × Q b)
    → (xs : List A) → All P xs
    → (ys : List B) × (traverse f xs ≡ ok ys) × All Q ys
unfolding traverse
traverse_total f P Q total [] h = ([], refl, tt)
traverse_total f P Q total (x ∷ xs) (px, h) =
    let (y, e, q) = total x px in
    let (ys, es, qs) = traverse_total f P Q total xs h in (y ∷ ys, rw (e, es) refl, (q, qs))

All-get_elem? :
    {A : Type 0} (P : A → Type 0) (xs : List A) (i : ℕ) (x : A)
    → All P xs
    → get_elem? xs i ≡ some x
    → P x
All-get_elem? P [] i x h e = cc
All-get_elem? P (y ∷ xs) zero x (p, h) e = let same : y ≡ x = cc in subst P same p
All-get_elem? P (y ∷ xs) (suc i) x (p, h) e = All-get_elem? P xs i x h e

image_at_total :
    (Q : Indexed → Type 0) (images : List Indexed)
    → All Q images
    → (l : ℕ) → l < length images
    → (e : Indexed) × (image_at images l ≡ ok e) × Q e
image_at_total Q images h l lt =
    let (e, at) = get_elem?-of_lt images l lt in
    (e, rw (image_at, at) refl, All-get_elem? Q images l e h at)

module _ (Q : Indexed → Type 0) where
  near_groups_total :
      (p : DedupParams) (images : List Indexed)
      → All Q images
      → (gs : List (List Indexed)) × ((near_groups p images).0 ≡ ok gs) × All (All Q) gs
  unfolding near_groups near_components
  near_groups_total p images h =
      let hashes = local_hashes images in
      let found = mih_pairs hashes p.threshold p.bucket_cap in
      let near = mih_pairs-IsNear hashes p.threshold p.bucket_cap in
      let (cs, ran, parted, _) =
        components_of_lem (length hashes) found.0
          (All-imp (near-InRange hashes p.threshold) found.0 near) in
      let size = length-map (λ (e : Indexed). local_hash (e.1).phash) images in
      let (gs, all, inside) =
        traverse_total (traverse (image_at images)) (All (λ i. i < length hashes)) (All Q)
          (traverse_total (image_at images) (λ i. i < length hashes) Q
            (λ l lt. image_at_total Q images h l (omega (arith, size, lt))))
          cs parted.inside in
      (gs, rw (ran, all) refl, inside)

  near_part_total :
      (p : DedupParams) (rows : List Indexed)
      → All Q rows
      → (gs : List (List Indexed)) × ((near_part p rows).0 ≡ ok gs) × All (All Q) gs
  near_part_total p rows h = elim (Bool-cases p.near) [
    | inl e ↦
        simp e (near_groups_total p (filter is_near_image rows) (All-filter Q is_near_image rows h))
    | inr e ↦ ([], simp e refl, tt)
  ]

-- A row of the scope, with an index below the number of the rows.
abbrev IsBelow : ℕ → Indexed → Type 0
IsBelow n e = e.0 < n

indexed-IsBelow : (i : ℕ) (rows : List Row) → All (IsBelow (i + length rows)) (indexed i rows)
indexed-IsBelow i [] = tt
indexed-IsBelow i (r ∷ rows) = (
  omega arith,
  All-imp (λ (e : Indexed) (h : e.0 < i + 1 + length rows). omega arith) (indexed (i + 1) rows)
      (indexed-IsBelow (i + 1) rows),
)

mark_at_total :
    (n : ℕ) (marks : List Bool) (i : ℕ)
    → length marks ≡ n
    → i < n
    → (m : List Bool) × (mark_at marks i ≡ ok m) × (length m ≡ n)
mark_at_total n marks i size h =
    let (b, at) = get_elem?-of_lt marks i (omega arith) in
    (set_elem marks i true, rw (mark_at, at) refl, length-set_elem marks i true ∙ size)

mark_group_total :
    (n : ℕ) (marks : List Bool) (es : List Indexed)
    → length marks ≡ n
    → All (IsBelow n) es
    → (m : List Bool) × (mark_group marks es ≡ ok m) × (length m ≡ n)
unfolding mark_group
mark_group_total n marks [] size h = (marks, refl, size)
mark_group_total n marks (e ∷ es) size (h, hs) =
    let (m, one, size₁) = mark_at_total n marks e.0 size h in
    let (m', more, size₂) = mark_group_total n m es size₁ hs in (m', rw (one, more) refl, size₂)

mark_groups_total :
    (n : ℕ) (marks : List Bool) (gs : List (List Indexed))
    → length marks ≡ n
    → All (All (IsBelow n)) gs
    → (m : List Bool) × (mark_groups marks gs ≡ ok m) × (length m ≡ n)
unfolding mark_groups
mark_groups_total n marks [] size h = (marks, refl, size)
mark_groups_total n marks (g ∷ gs) size (h, hs) =
    let (m, one, size₁) = mark_group_total n marks g size h in
    let (m', more, size₂) = mark_groups_total n m gs size₁ hs in (m', rw (one, more) refl, size₂)

by_hash_step :
    (marks : List Bool) (m : SortedMap Bytes (List Indexed)) (e : Indexed) (es : List Indexed)
    (grouped : Bool)
    → get_elem? marks e.0 ≡ some grouped
    → by_hash true marks m (e ∷ es)
      ≡ by_hash true marks (if grouped then m else add_hashed e (e.1).content_hash m) es
unfolding by_hash
by_hash_step marks m e es grouped at = rw (is_grouped, at) refl

module _ (Q : Indexed → Type 0) where
  -- The rows that a map of hashes holds.
  abbrev IsFiled : Bytes × List Indexed → Type 0
  IsFiled (h, es) = All (λ e. Q e × ((e.1).content_hash ≡ some h)) es

  add_hashed-IsFiled :
      (e : Indexed) (o : Option Bytes) (m : SortedMap Bytes (List Indexed))
      → (e.1).content_hash ≡ o
      → Q e
      → All IsFiled m
      → All IsFiled (add_hashed e o m)
  add_hashed-IsFiled e none m at q h = h
  add_hashed-IsFiled e (some k) m at q h =
      upsert_entry-All IsFiled k (push_row e) m ((q, at), tt)
        (λ es filed.
          All-append (λ x. Q x × ((x.1).content_hash ≡ some k)) es (e ∷ []) filed ((q, at), tt))
        h

  by_hash_total :
      (near : Bool) (marks : List Bool) (m : SortedMap Bytes (List Indexed)) (es : List Indexed)
      → All (IsBelow (length marks)) es
      → All Q es
      → All IsFiled m
      → (m' : SortedMap Bytes (List Indexed)) × (by_hash near marks m es ≡ ok m') × All IsFiled m'
  unfolding by_hash
  by_hash_total near marks m [] below h filed = (m, refl, filed)
  by_hash_total false marks m (e ∷ es) (b, below) (q, h) filed =
      by_hash_total false marks (add_hashed e (e.1).content_hash m) es below h
        (add_hashed-IsFiled e (e.1).content_hash m refl q filed)
  by_hash_total true marks m (e ∷ es) (b, below) (q, h) filed =
      let (grouped, at) = get_elem?-of_lt marks e.0 b in
      let next = if grouped then m else add_hashed e (e.1).content_hash m in
      let (m', ran, filed') =
        by_hash_total true marks next es below h
          (kept grouped (add_hashed-IsFiled e (e.1).content_hash m refl q filed)) in
      (m', by_hash_step marks m e es grouped at ∙ ran, filed')
    where
      kept :
          (b : Bool)
          → All IsFiled (add_hashed e (e.1).content_hash m)
          → All IsFiled (if b then m else add_hashed e (e.1).content_hash m)
      kept true new = filed
      kept false new = new

  -- Rows with one content hash.
  abbrev IsAlike : List Indexed → Type 0
  IsAlike es = (h : Bytes) × All (λ e. Q e × ((e.1).content_hash ≡ some h)) es

  exact_part_total :
      (p : DedupParams) (marks : List Bool) (es : List Indexed)
      → All (IsBelow (length marks)) es
      → All Q es
      → (gs : List (List Indexed)) × (exact_part p marks es ≡ ok gs) × All IsAlike gs
  unfolding exact_groups
  exact_part_total p marks es below h = elim (Bool-cases p.exact) [
    | inr e ↦ ([], rw e refl, tt)
    | inl e ↦
        let (m, ran, filed) = by_hash_total p.near marks [] es below h tt in
        (
          filter form_group (values m),
          rw (e, ran) refl,
          All-filter IsAlike form_group (values m) (
              All-map IsAlike (λ (x : Bytes × List Indexed). x.1) m
                (All-imp (λ (x : Bytes × List Indexed) f. (x.0, f)) m filed)),
        )
  ]

-- A raw group: near rows, or rows with one content hash.
abbrev pub IsRaw : List Indexed → RawGroup → Type 0
IsRaw es (kind, members) =
    All (λ e. Memᴰ e es) members
    × ((kind ≡ "near")
        ⊎ ((kind ≡ "exact") × ((h : Bytes) × All (λ e. (e.1).content_hash ≡ some h) members)))

-- The raw groups are gathered, whatever the rows; each holds rows of the scope, and an exact one
-- rows of one content hash.
pub gather_total :
    (p : DedupParams) (rows : List Row)
    → (raw : List RawGroup) × ((gather p rows).0 ≡ ok raw) × All (IsRaw (indexed 0 rows)) raw
unfolding gather
gather_total p rows =
    let es = indexed 0 rows in
    let Q = λ (e : Indexed). Memᴰ e es in
    let (near, found_near, near_in) = near_part_total Q p es (each_in es) in
    let below = indexed-IsBelow 0 rows in
    let at = λ (e : Indexed) (m : Memᴰ e es).
      All-at (IsBelow (length rows)) es e
        (All-imp (λ (x : Indexed) (h : x.0 < 0 + length rows). omega arith) es below) m in
    let (marks, marked, size) =
      mark_groups_total (length rows) (map (λ _. false) rows) near
        (length-map (λ (r : Row). false) rows) (All-imp (λ g h. All-imp at g h) near near_in) in
    let (exact, found_exact, alike) =
      exact_part_total Q p marks es
        (All-imp (λ (x : Indexed) (h : x.0 < 0 + length rows). omega arith) es below)
        (each_in es) in
    (
      map (λ g. ("near", g)) near ++ map (λ g. ("exact", g)) exact,
      rw (found_near, marked, found_exact) refl,
      All-append (IsRaw es) (map (λ g. ("near", g)) near) (map (λ g. ("exact", g)) exact)
          (All-map (IsRaw es) (λ g. ("near", g)) near (All-imp (λ g h. (h, inl refl)) near near_in))
          (All-map (IsRaw es) (λ g. ("exact", g)) exact
            (All-imp
              (λ g (k, h).
                (All-imp (λ e (q, _). q) g h, inr (refl, (k, All-imp (λ e (_, c). c) g h))))
              exact alike)),
    )
