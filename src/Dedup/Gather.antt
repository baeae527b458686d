-- ===== src/Dedup/Gather.antt =====
-- src/core/dedup.rs: the part of `run_dedup` that gathers the raw groups, near and exact. The hash
-- map of the exact groups is walked in key order; the code's `HashMap` leaves the order open.
use text.Mathlib.Text.{◌==◌ as str_eq}
use backupsage.Base.{
  ℕ, ◌+◌, String, Bool, true, false, not, ◌&&◌, Option, none, some, List, [], ◌∷◌, ◌++◌, map,
  filter, get_elem?, set_elem, if◌then◌else◌, Result, ok, err, ◌>>=◌, traverse,
}
use backupsage.Base.Int.{ℤ}
use backupsage.Base.Order.{nat_ord, list_ord}
use backupsage.Base.SortedMap.{SortedMap, upsert, values}
use backupsage.Coverage.{Bytes}
use backupsage.Phash.{is_trivial}
use backupsage.Dedup.Types.{Row, shadowed, is_hardlink}
use backupsage.Dedup.Keep.{Indexed}
use backupsage.Dedup.Assemble.{as_u64, forms_exact_group}
use backupsage.Dedup.Order.{DedupParams}
use backupsage.Dedup.UnionFind.{Trouble, out_of_bounds, near_components}

-- A match kind with the rows of one group.
abbrev pub RawGroup : Type 0
RawGroup = String × List Indexed

-- `rows.iter().enumerate()`
abbrev pub indexed : ℕ → List Row → List Indexed
indexed i [] = []
indexed i (r ∷ rows) = (i, r) ∷ indexed (i + 1) rows

abbrev has_hash : Option ℤ → Bool
has_hash none = false
has_hash (some h) = not (is_trivial (as_u64 h))

-- Whether the near search looks at a row.
unfoldable pub is_near_image : Indexed → Bool
is_near_image (_, r) =
    str_eq r.kind "image" && (not (shadowed r) && (not (is_hardlink r) && has_hash r.phash))

-- `phash.unwrap() as u64`, of rows that have a hash.
abbrev pub local_hash : Option ℤ → ℕ
local_hash none = 0
local_hash (some h) = as_u64 h

abbrev pub local_hashes : List Indexed → List ℕ
local_hashes images = map (λ (e : Indexed). local_hash (e.1).phash) images

-- `image_idxs[l]`
abbrev pub image_at : List Indexed → ℕ → Result Trouble Indexed
image_at images l = elim (get_elem? images l) [ none ↦ err out_of_bounds | some e ↦ ok e ]

-- The near groups, and the buckets that the search skipped.
unfoldable pub near_groups : DedupParams → List Indexed → Result Trouble (List (List Indexed)) × ℕ
near_groups p images =
    let found = near_components (local_hashes images) p.threshold p.bucket_cap in
    (found.0 >>= traverse (traverse (image_at images)), found.1)

-- `in_near_group[m] = true`
abbrev pub mark_at : List Bool → ℕ → Result Trouble (List Bool)
mark_at marks i = elim (get_elem? marks i) [
  | none ↦ err out_of_bounds
  | some _ ↦ ok (set_elem marks i true)
]

-- The marks of the rows of a group.
unfoldable pub mark_group : List Bool → List Indexed → Result Trouble (List Bool)
mark_group marks [] = ok marks
mark_group marks (e ∷ es) = do marked ← mark_at marks e.0; mark_group marked es

unfoldable pub mark_groups : List Bool → List (List Indexed) → Result Trouble (List Bool)
mark_groups marks [] = ok marks
mark_groups marks (g ∷ gs) = do marked ← mark_group marks g; mark_groups marked gs

-- `p.near && in_near_group[i]`
abbrev pub is_grouped : Bool → List Bool → ℕ → Result Trouble Bool
is_grouped false marks i = ok false
is_grouped true marks i = elim (get_elem? marks i) [ none ↦ err out_of_bounds | some b ↦ ok b ]

abbrev pub push_row : Indexed → Option (List Indexed) → List Indexed
push_row e none = e ∷ []
push_row e (some es) = es ++ e ∷ []

-- A row with no content hash is passed over.
abbrev pub add_hashed :
    Indexed → Option Bytes → SortedMap Bytes (List Indexed) → SortedMap Bytes (List Indexed)
add_hashed e none m = m
add_hashed e (some h) m = upsert h (push_row e) m

-- The rows by content hash, less those that stand in a near group.
unfoldable pub by_hash :
    Bool
    → List Bool
    → SortedMap Bytes (List Indexed)
    → List Indexed
    → Result Trouble (SortedMap Bytes (List Indexed))
by_hash near marks m [] = ok m
by_hash near marks m (e ∷ es) = do
  grouped ← is_grouped near marks e.0
  by_hash near marks (if grouped then m else add_hashed e (e.1).content_hash m) es

abbrev pub form_group : List Indexed → Bool
form_group members = forms_exact_group (map (λ (e : Indexed). e.1) members)

unfoldable pub exact_groups : Bool → List Bool → List Indexed → Result Trouble (List (List Indexed))
exact_groups near marks rows = do m ← by_hash near marks [] rows; ok (filter form_group (values m))

abbrev pub exact_part :
    DedupParams → List Bool → List Indexed → Result Trouble (List (List Indexed))
exact_part p marks rows = if p.exact then exact_groups p.near marks rows else ok []

abbrev pub near_part : DedupParams → List Indexed → Result Trouble (List (List Indexed)) × ℕ
near_part p rows = if p.near then near_groups p (filter is_near_image rows) else (ok [], 0)

-- The near groups, then the exact ones.
unfoldable pub gather : DedupParams → List Row → Result Trouble (List RawGroup) × ℕ
gather p rows =
    let es = indexed 0 rows in
    let found = near_part p es in
    (
      (do
        near ← found.0
        marks ← mark_groups (map (λ _. false) rows) near
        exact ← exact_part p marks es
        ok (map (λ g. ("near", g)) near ++ map (λ g. ("exact", g)) exact)),
      found.1,
    )
