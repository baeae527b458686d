-- ===== src/Floors/Counts.antt =====
-- src/core/floors.rs: the counts of one judged group.
use backupsage.Base.{
  ℕ, ◌+◌, ◌≤◌, ◌≡◌, ◌↔◌, refl, Bool, true, false, not, ◌&&◌, none, some, List, [], ◌∷◌, count,
  length, ok, >>=-eq-ok, ok-injective, arith, subst, traverse, map, sym, ap, ◌∙◌, All, Option-cases,
  inl, inr,
}
use backupsage.Base.Int.{ℤ}
use backupsage.Base.Order.{int_ord}
use backupsage.Base.SortedMap.{lookup}
use backupsage.Coverage.{RowRef, Presence, present, absent, unknown, SourcePresence, ContentGroup}
use backupsage.Floors.Types.{SourceStatus, counts_toward_floor, FloorParams, GroupFloor, FloorCopy}
use backupsage.Floors.Evaluate.{
  Designations, index, is_protected, Tally, no_tally, tally_one, tally, judge_group, floor_copy,
}

-- The tallies of one group: protected replicas are trusted ones, and no source is counted twice.
tally_one-bounds :
    (d : Designations) (a : Tally) (id : ℤ) (q : Presence) {a' : Tally} (n : ℕ)
    → a.protected ≤ a.trusted
    → a.trusted + a.untrusted + a.unknown_sources ≤ n
    → tally_one d a id q ≡ ok a'
    → (a'.protected ≤ a'.trusted) × (a'.trusted + a'.untrusted + a'.unknown_sources ≤ n + 1)
unfolding tally_one
tally_one-bounds d a id (present m) n h k e = ground arith
tally_one-bounds d a id absent n h k e = ground arith
tally_one-bounds d a id (unknown r) n h k e = ground arith

tally-bounds :
    (d : Designations) (a : Tally) (ps : List SourcePresence) {a' : Tally} (n : ℕ)
    → a.protected ≤ a.trusted
    → a.trusted + a.untrusted + a.unknown_sources ≤ n
    → tally d a ps ≡ ok a'
    → (a'.protected ≤ a'.trusted) × (a'.trusted + a'.untrusted + a'.unknown_sources ≤ n + length ps)
unfolding tally
tally-bounds d a [] n h k e = ground arith
tally-bounds d a (p ∷ ps) n h k e =
    let (a₁, e₁, e₂) = >>=-eq-ok (tally_one d a p.source_id p.presence) _ e in
    let (h₁, k₁) = tally_one-bounds d a p.source_id p.presence n h k e₁ in
    let (h₂, k₂) = tally-bounds d a₁ ps (n + 1) h₁ k₁ e₂ in (h₂, omega arith)

rows-floor_copy :
    (d : Designations) (rs : List RowRef) {cs : List FloorCopy}
    → traverse (floor_copy d) rs ≡ ok cs
    → map (λ c. c.row) cs ≡ rs
unfolding traverse floor_copy
rows-floor_copy d [] e = ap (map (λ (c : FloorCopy). c.row)) (sym (ok-injective e))
rows-floor_copy d (r ∷ rs) e =
    let (c, e₁, e₂) = >>=-eq-ok (floor_copy d r) _ e in
    let (status, _, e₃) = >>=-eq-ok (index d.status_of r.source_id) _ e₁ in
    let (label, _, one) = >>=-eq-ok (index d.labels r.source_id) _ e₃ in
    let (cs, rest, done) = >>=-eq-ok (traverse (floor_copy d) rs) _ e₂ in
    ap (map (λ (c : FloorCopy). c.row)) (sym (ok-injective done))
    ∙ (λ i. (ok-injective (sym one) i).row ∷ rows-floor_copy d rs rest i)

-- Whether the rows of a source count.
abbrev pub counted : Designations → ℤ → Bool
counted d id = elim (lookup id d.status_of) [ none ↦ false | some s ↦ counts_toward_floor s ]

-- Whether the content was found under a source that passes a test.
abbrev found_under : (ℤ → Bool) → ℤ → Presence → Bool
found_under test id (present _) = test id
found_under test id absent = false
found_under test id (unknown _) = false

abbrev pub is_found : (ℤ → Bool) → SourcePresence → Bool
is_found test p = found_under test p.source_id p.presence

abbrev is_open : Presence → Bool
is_open (unknown _) = true
is_open (present _) = false
is_open absent = false

abbrev pub is_unknown : SourcePresence → Bool
is_unknown p = is_open p.presence

-- What a tally adds to another one.
record Counts (d : Designations) (a a' : Tally) (ps : List SourcePresence) : Type 0 where
  trusted : a'.trusted ≡ a.trusted + count (is_found (counted d)) ps
  untrusted : a'.untrusted ≡ a.untrusted + count (is_found (λ id. not (counted d id))) ps
  protected :
      a'.protected ≡ a.protected + count (is_found (λ id. counted d id && is_protected d id)) ps
  unknown_sources : a'.unknown_sources ≡ a.unknown_sources + count is_unknown ps

tally_one-Counts :
    (d : Designations) (a a' : Tally) (id : ℤ) (q : Presence)
    → tally_one d a id q ≡ ok a'
    → Counts d a a' (record { source_id = id; presence = q } ∷ [])
unfolding tally_one
tally_one-Counts d a a' id absent e = record {
  trusted = ground arith;
  untrusted = ground arith;
  protected = ground arith;
  unknown_sources = ground arith;
}
tally_one-Counts d a a' id (unknown r) e = record {
  trusted = ground arith;
  untrusted = ground arith;
  protected = ground arith;
  unknown_sources = ground arith;
}
tally_one-Counts d a a' id (present m) e = elim (Option-cases (lookup id d.status_of)) [
  | inl n ↦ ground (arith, n)
  | inr (s, l) ↦ record {
    trusted = ground (arith, l);
    untrusted = ground (arith, l);
    protected = ground (arith, l);
    unknown_sources = ground (arith, l);
  }
]

tally-Counts :
    (d : Designations) (a a' : Tally) (ps : List SourcePresence)
    → tally d a ps ≡ ok a'
    → Counts d a a' ps
unfolding tally
tally-Counts d a a' [] e =
    subst (λ t. Counts d a t []) (ok-injective e)
      (record {
        trusted = omega arith;
        untrusted = omega arith;
        protected = omega arith;
        unknown_sources = omega arith;
      })
tally-Counts d a a' (p ∷ ps) e =
    let (a₁, e₁, e₂) = >>=-eq-ok (tally_one d a p.source_id p.presence) _ e in
    let one = tally_one-Counts d a a₁ p.source_id p.presence e₁ in
    let more = tally-Counts d a₁ a' ps e₂ in
    record {
      trusted = omega (arith, one.trusted, more.trusted);
      untrusted = omega (arith, one.untrusted, more.untrusted);
      protected = omega (arith, one.protected, more.protected);
      unknown_sources = omega (arith, one.unknown_sources, more.unknown_sources);
    }

-- A copy has the status of its source, and counts and is protected as its source does.
abbrev pub IsCopy : Designations → FloorCopy → Type 0
IsCopy d c =
    (lookup c.row.source_id d.status_of ≡ some c.status)
    × (c.counts ≡ counted d c.row.source_id)
    × (c.protected ≡ is_protected d c.row.source_id)

counted_at :
    (d : Designations) (id : ℤ) (s : SourceStatus)
    → lookup id d.status_of ≡ some s
    → counted d id ≡ counts_toward_floor s
counted_at d id s l = ground (arith, l)

floor_copy-IsCopy :
    (d : Designations) (r : RowRef) (c : FloorCopy) → floor_copy d r ≡ ok c → IsCopy d c
unfolding floor_copy
floor_copy-IsCopy d r c e = elim (Option-cases (lookup r.source_id d.status_of)) [
  | inl n ↦ ground (arith, n)
  | inr (s, l) ↦
      let (status, is_status, e₁) = >>=-eq-ok (index d.status_of r.source_id) _ e in
      let (label, _, done) = >>=-eq-ok (index d.labels r.source_id) _ e₁ in
      let same : s ≡ status = ground (arith, l, is_status) in
      subst (IsCopy d) (ok-injective done) (
        l ∙ ap (λ x. some x) same,
        ap counts_toward_floor (sym same) ∙ sym (counted_at d r.source_id s l),
        refl,
      )
]

copies-IsCopy :
    (d : Designations) (rs : List RowRef) (cs : List FloorCopy)
    → traverse (floor_copy d) rs ≡ ok cs
    → All (IsCopy d) cs
unfolding traverse
copies-IsCopy d [] cs e = subst (All (IsCopy d)) (ok-injective e) tt
copies-IsCopy d (r ∷ rs) cs e =
    let (c, one, e') = >>=-eq-ok (floor_copy d r) _ e in
    let (rest, more, done) = >>=-eq-ok (traverse (floor_copy d) rs) _ e' in
    subst (All (IsCopy d)) (ok-injective done)
      (floor_copy-IsCopy d r c one, copies-IsCopy d rs rest more)

-- What `judge_group` reports of a group, read off its presence list.
pub record IsCounted (d : Designations) (g : ContentGroup) (f : GroupFloor) : Type 0 where
  pub trusted : f.trusted_replicas ≡ count (is_found (counted d)) g.presence
  pub untrusted : f.untrusted_replicas ≡ count (is_found (λ id. not (counted d id))) g.presence
  pub protected :
      f.protected_replicas ≡ count (is_found (λ id. counted d id && is_protected d id)) g.presence
  pub unknown_sources : f.unknown_sources ≡ count is_unknown g.presence
  pub protected_trusted : f.protected_replicas ≤ f.trusted_replicas
  pub each_once : f.trusted_replicas + f.untrusted_replicas + f.unknown_sources ≤ length g.presence
  pub only_copy : (f.only_copy ≡ true) ↔ ((f.trusted_replicas ≡ 1) × (f.unknown_sources ≡ 0))
  pub rows : map (λ c. c.row) f.copies ≡ g.copies
  pub flags : All (IsCopy d) f.copies

-- In a judged group the trusted, untrusted and protected replicas are the sources with the content
-- whose status counts, does not count, and counts and is protected; the unknown sources are those
-- whose presence is unknown; no source is counted twice. `only_copy` says that there is exactly one
-- trusted replica and no unknown source. The copies are those of the group, in its order, each with
-- the status of its source and flagged as its source is.
pub judge_group_counts :
    (d : Designations) (p : FloorParams) (g : ContentGroup) (f : GroupFloor)
    → judge_group d p g ≡ ok f
    → IsCounted d g f
unfolding judge_group
judge_group_counts d p g f e =
    let (t, tallied, e') = >>=-eq-ok (tally d no_tally g.presence) _ e in
    let (copies, listed, done) = >>=-eq-ok (traverse (floor_copy d) g.copies) _ e' in
    let (h, k) = tally-bounds d no_tally g.presence 0 (omega arith) (omega arith) tallied in
    let counts = tally-Counts d no_tally t g.presence tallied in
    subst (IsCounted d g) (ok-injective done) (record {
      trusted = omega (arith, counts.trusted);
      untrusted = omega (arith, counts.untrusted);
      protected = omega (arith, counts.protected);
      unknown_sources = omega (arith, counts.unknown_sources);
      protected_trusted = h;
      each_once = omega arith;
      only_copy = (λ q. ground arith, λ q. ground arith);
      rows = rows-floor_copy d g.copies listed;
      flags = copies-IsCopy d g.copies copies listed;
    })
