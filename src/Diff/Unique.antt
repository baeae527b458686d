-- ===== src/Diff/Unique.antt =====
-- src/core/diff.rs: what `unique_hashes` finds.
use mathlib.Core.Path.{◌≡◌, refl, sym, ap, subst, ◌∙◌}
use mathlib.Core.Logic.{◌⊎◌, inl, inr}
use Prim.Native.Nat.{Ordering}
use native.Mathlib.Omega.{arith}
use backupsage.Base.{
  any, is_some, not, Bool, true, false, Option, none, some, List, [], ◌∷◌, ◌++◌, All, All-imp,
  filter, append_assoc, append-nil, if◌then◌else◌, Result, ok, ◌>>=◌, >>=-eq-ok, ok-injective,
  Option-cases,
}
use backupsage.Base.Order.{Ord, eqb, eqb_iff, IsSorted, nat_ord, list_ord}
use backupsage.Base.SortedMap.{
  SortedMap, keys, lookup, upsert, lookup-upsert, upsert-IsSorted, lookup-below,
}
use backupsage.Coverage.{Bytes}
use backupsage.Diff.Types.{complete, Entry, Snapshot, DiffError}
use backupsage.Diff.Rows.{trusted_hash}
use backupsage.Diff.Compare.{add_to, by_hash, singletons, unique_hashes}

abbrev is_hash : Bytes → Option Bytes → Bool
is_hash hash none = false
is_hash hash (some h) = eqb hash h

-- Whether an entry's trusted hash is this one.
abbrev pub has_hash : Bytes → Entry → Bool
has_hash hash e = is_hash hash (trusted_hash e)

abbrev group_at : Option (List Entry) → List Entry
group_at none = []
group_at (some es) = es

add_to-group_at : (e : Entry) (o : Option (List Entry)) → add_to e o ≡ group_at o ++ (e ∷ [])
add_to-group_at e o = ground arith

by_hash-filter :
    (hash : Bytes) (m m' : SortedMap Bytes (List Entry)) (es : List Entry)
    → by_hash m es ≡ ok m'
    → group_at (lookup hash m') ≡ group_at (lookup hash m) ++ filter (has_hash hash) es
unfolding by_hash
by_hash-filter hash m m' [] h =
    rw (sym (ok-injective h)) (sym (append-nil (group_at (lookup hash m))))
by_hash-filter hash m m' (e ∷ es) h = elim (Option-cases (trusted_hash e)) [
  | inl n ↦ cc
  | inr (k, t) ↦ ground (
    arith,
    by_hash-filter hash (upsert k (add_to e) m) m' es,
    lookup-upsert k hash (add_to e) m,
    add_to-group_at e (lookup hash m),
    (eqb_iff hash k).0,
    append_assoc (group_at (lookup hash m)) (e ∷ []) (filter (has_hash hash) es),
  )
]

by_hash-cons :
    (m m' : SortedMap Bytes (List Entry)) (e : Entry) (es : List Entry) (k : Bytes)
    → trusted_hash e ≡ some k
    → by_hash m (e ∷ es) ≡ ok m'
    → by_hash (upsert k (add_to e) m) es ≡ ok m'
unfolding by_hash
by_hash-cons m m' e es k t h = ground arith

by_hash-IsSorted :
    (m m' : SortedMap Bytes (List Entry)) (es : List Entry)
    → by_hash m es ≡ ok m'
    → IsSorted (keys m)
    → IsSorted (keys m')
unfolding by_hash
by_hash-IsSorted m m' [] h s = subst (λ x. IsSorted (keys x)) (ok-injective h) s
by_hash-IsSorted m m' (e ∷ es) h s = elim (Option-cases (trusted_hash e)) [
  | inl n ↦ cc
  | inr (k, t) ↦
      by_hash-IsSorted (upsert k (add_to e) m) m' es (by_hash-cons m m' e es k t h)
        (upsert-IsSorted k (add_to e) m s)
]

module _ {K : Type 0} ⦃o : Ord K⦄ where
  keys-singletons :
      (P : K → Type 0) (m : SortedMap K (List Entry)) → All P (keys m) → All P (keys (singletons m))
  unfolding singletons
  keys-singletons P [] h = tt
  keys-singletons P ((k, []) ∷ m) h = keys-singletons P m h.1
  keys-singletons P ((k, x ∷ []) ∷ m) h = (h.0, keys-singletons P m h.1)
  keys-singletons P ((k, x ∷ y ∷ es) ∷ m) h = keys-singletons P m h.1

  above :
      (hash k : K) (m : SortedMap K (List Entry)) (e : Entry)
      → ¬ (o.cmp hash k ≡ Ordering.gt)
      → All (λ j. o.cmp k j ≡ Ordering.lt) (keys m)
      → ¬ (lookup hash (singletons m) ≡ some e)
  above hash k m e h low found_it =
      let none_there = lookup-below hash (singletons m) (
        keys-singletons (λ j. o.cmp hash j ≡ Ordering.lt) m
          (All-imp {Q = λ j. o.cmp hash j ≡ Ordering.lt}
            (λ j q. ground (arith, o.lt_trans hash k j, o.eq_of hash k)) (keys m) low)) in
      cc

  lookup-singletons :
      (hash : K) (m : SortedMap K (List Entry)) (e : Entry)
      → IsSorted (keys m)
      → lookup hash (singletons m) ≡ some e
      → lookup hash m ≡ some (e ∷ [])
  unfolding lookup singletons
  lookup-singletons hash [] e s h = cc
  lookup-singletons hash ((k, []) ∷ m) e s h =
      ground (arith, above hash k m e, lookup-singletons hash m e s.1)
  lookup-singletons hash ((k, x ∷ []) ∷ m) e s h =
      ground (arith, above hash k m e, lookup-singletons hash m e s.1)
  lookup-singletons hash ((k, x ∷ y ∷ es) ∷ m) e s h =
      ground (arith, above hash k m e, lookup-singletons hash m e s.1)

guarded :
    (b : Bool) (found_groups : Result DiffError (SortedMap Bytes (List Entry)))
    (m : SortedMap Bytes Entry)
    → (if b then ok [] else (found_groups >>= λ g. ok (singletons g))) ≡ ok m
    → (m ≡ [])
      ⊎ ((b ≡ false)
          × ((g : SortedMap Bytes (List Entry)) × (found_groups ≡ ok g) × (m ≡ singletons g)))
guarded true found_groups m h = inl (sym (ok-injective h))
guarded false found_groups m h =
    let (g, e, u) = >>=-eq-ok found_groups (λ g. ok (singletons g)) h in
    inr (refl, (g, e, sym (ok-injective u)))

-- An entry that `unique_hashes` gives stands in a complete snapshot, where every entry has a trusted
-- hash, and is the only entry with its hash.
pub unique_hashes-only :
    (s : Snapshot) (m : SortedMap Bytes Entry) (hash : Bytes) (e : Entry)
    → unique_hashes s ≡ ok m
    → lookup hash m ≡ some e
    → (s.info.state ≡ complete)
      × (filter (has_hash hash) s.entries ≡ e ∷ [])
      × (any (λ x. not (is_some (trusted_hash x))) s.entries ≡ false)
unfolding unique_hashes lookup
unique_hashes-only s m hash e h there = elim (guarded _ (by_hash [] s.entries) m h) [
  | inl nothing ↦ let gone = sym there ∙ ap (lookup hash) nothing in cc
  | inr (b, (g, run, eq_m)) ↦
      let one =
        lookup-singletons hash g e (by_hash-IsSorted [] g s.entries run tt)
          (sym (ap (lookup hash) eq_m) ∙ there) in
      (ground arith, sym (by_hash-filter hash [] g s.entries run) ∙ ap group_at one, ground arith)
]
