-- ===== src/Dedup/UnionFind.antt =====
-- src/core/dedup.rs: `UnionFind`, and `near_components` on top of it. Each loop that follows
-- parents has fuel. The clusters are walked in key order, and then sorted.
use backupsage.Base.{
  ℕ, zero, suc, ◌+◌, ltb, not, ◌==◌, Bool, true, false, Option, none, some, List, [], ◌∷◌, ◌++◌,
  length, filter, map, get_elem?, set_elem, if◌then◌else◌, Result, ok, err, ◌>>=◌,
}
use backupsage.Base.Order.{nat_ord, list_ord}
use backupsage.Base.SortedMap.{SortedMap, upsert, values}
use backupsage.Base.Sort.{sort_by}
use backupsage.Dedup.Near.{Pair, mih_pairs}

-- An index that is out of bounds panics.
pub data Trouble : Type 0 where
  out_of_bounds out_of_fuel : Trouble

pub record UnionFind : Type 0 where
  pub parent : List ℕ

-- `self.parent[x]`
abbrev pub parent_at : List ℕ → ℕ → Result Trouble ℕ
parent_at parent x = elim (get_elem? parent x) [ none ↦ err out_of_bounds | some y ↦ ok y ]

-- `(i..i + n)`
abbrev pub range : ℕ → ℕ → List ℕ
range i zero = []
range i (suc n) = i ∷ range (i + 1) n

unfoldable pub new : ℕ → UnionFind
new n = record { parent = range 0 n }

-- One unit of fuel for each test of the loop.
unfoldable pub find : ℕ → UnionFind → ℕ → Result Trouble (UnionFind × ℕ)
find zero uf x = err out_of_fuel
find (suc fuel) uf x = do
  y ← parent_at uf.parent x
  elim (y == x) [
    | true ↦ ok (uf, x)
    | false ↦ do g ← parent_at uf.parent y; find fuel (record { parent = set_elem uf.parent x g }) g
  ]

unfoldable pub union : ℕ → UnionFind → ℕ → ℕ → Result Trouble UnionFind
union fuel uf a b = do
  (uf₁, ra) ← find fuel uf a
  (uf₂, rb) ← find fuel uf₁ b
  ok (if not (ra == rb) then record { parent = set_elem uf₂.parent ra rb } else uf₂)

unfoldable pub union_all : ℕ → UnionFind → List Pair → Result Trouble UnionFind
union_all fuel uf [] = ok uf
union_all fuel uf (p ∷ pairs) = do uf₁ ← union fuel uf p.0 p.1; union_all fuel uf₁ pairs

-- `entry(..).or_default().push(i)`
abbrev pub push_index : ℕ → Option (List ℕ) → List ℕ
push_index i none = i ∷ []
push_index i (some is) = is ++ i ∷ []

unfoldable pub clusters_from :
    ℕ → UnionFind → SortedMap ℕ (List ℕ) → List ℕ → Result Trouble (SortedMap ℕ (List ℕ))
clusters_from fuel uf m [] = ok m
clusters_from fuel uf m (i ∷ is) = do
  (uf₁, r) ← find fuel uf i
  clusters_from fuel uf₁ (upsert r (push_index i) m) is

abbrev pub is_review_group : List ℕ → Bool
is_review_group c = ltb 1 (length c)

abbrev pub sorted_components : SortedMap ℕ (List ℕ) → List (List ℕ)
sorted_components m = sort_by (λ c. c) (map (sort_by (λ i. i)) (filter is_review_group (values m)))

-- `near_components` after `mih_pairs`.
unfoldable pub components_of : ℕ → ℕ → List Pair → Result Trouble (List (List ℕ))
components_of fuel n pairs = do
  uf ← union_all fuel (new n) pairs
  m ← clusters_from fuel uf [] (range 0 n)
  ok (sorted_components m)

-- The components, and the buckets that the search skipped.
unfoldable pub near_components : List ℕ → ℕ → ℕ → Result Trouble (List (List ℕ)) × ℕ
near_components hashes threshold cap =
    let found = mih_pairs hashes threshold cap in
    (components_of (suc (length found.0)) (length hashes) found.0, found.1)
