-- ===== src/Plan/Kept.antt =====
-- src/core/plan.rs: the copies that an accepted plan leaves of each group.
use backupsage.Base.{
  ◌≡◌, refl, sym, ap, subst, arith, ℕ, suc, ◌≤◌, ◌==◌, Bool, true, false, not, ◌&&◌, ◌⊎◌, inl, inr,
  ◌∙◌, some, List, [], ◌∷◌, any, length, All, All-imp, All-and, if◌then◌else◌, ok, >>=-eq-ok,
  bail_if, Bool-cases,
}
use backupsage.Base.Order.{eqb, eqb_iff, IsSorted, nat_ord, int_ord, list_ord, pair_ord}
use backupsage.Base.SortedMap.{SortedMap, keys, upsert, upsert-IsSorted}
use backupsage.Coverage.{Bytes}
use backupsage.Plan.Types.{
  PlanKind, organize, dedup, SourceRef, EntryKey, Op, mkdir, move, extract, Action, Disposition,
  GroupMember, Group, Plan,
}
use backupsage.Plan.Hex.{groups_on_non_dedup_plan}
use backupsage.Plan.Ids.{entry_key}
use backupsage.Plan.Canonical.{is_quarantine, staying_roots, remaining_after, verify_derived}
use backupsage.Plan.Invariants.{
  find_group, find_member, is_dedup, has_groups, check_roots, invariants_hold,
}
use backupsage.Plan.Targets.{reads}
use backupsage.Plan.Legal.{IsLegal, IsAllowed, IsBacked, invariants_hold-IsLegal}
use backupsage.Plan.Derived.{floors_stated}

abbrev members_staying : List GroupMember → List SourceRef
members_staying [] = []
members_staying (m ∷ members) =
    if is_quarantine m.disposition
    then members_staying members
    else m.entry ∷ members_staying members

-- The keeper of a group, and its members that are not to be put aside.
abbrev pub staying : Group → List SourceRef
staying g = g.keeper.entry ∷ members_staying g.members

abbrev aside_as : EntryKey → GroupMember → Bool
aside_as key m = is_quarantine m.disposition && eqb (entry_key m.entry) key

abbrev aside_in : EntryKey → Group → Bool
aside_in key g = any (aside_as key) g.members

-- Whether a group of the plan has this entry as a member to be put aside.
abbrev pub is_aside : Plan → EntryKey → Bool
is_aside p key = any (aside_in key) p.groups

-- Whether an action of the plan reads, and so takes away, this entry.
abbrev pub is_taken : Plan → EntryKey → Bool
is_taken p key = any (λ (a : Action). reads key a.op) p.actions

-- Whether an entry that no action takes away stands under a root.
abbrev pub keeps_copy : Plan → List SourceRef → ℕ → Bool
keeps_copy p entries id = any (λ s. s.root_id == id && not (is_taken p (entry_key s))) entries

-- There are as many different roots as the group requires, each with an entry of the group that no
-- action takes away.
abbrev pub IsKept : Plan → Group → Type 0
IsKept p g =
    (ids : List ℕ) × IsSorted ids
    × (g.replica_floor.required ≤ length ids)
    × All (λ id. keeps_copy p (staying g) id ≡ true) ids

keys_upsert-All :
    (P : ℕ → Type 0) (k : ℕ) (m : SortedMap ℕ (Unit {0}))
    → P k
    → All P (keys m)
    → All P (keys (upsert k (λ _. tt) m))
unfolding upsert
keys_upsert-All P k [] h hs = (h, tt)
keys_upsert-All P k ((j, v) ∷ m) h hs = grind (arith, keys_upsert-All P k m h hs.1)

staying_roots-All :
    (P : ℕ → Type 0) (ids : SortedMap ℕ (Unit {0})) (members : List GroupMember)
    → All P (keys ids)
    → All (λ s. P s.root_id) (members_staying members)
    → All P (keys (staying_roots ids members))
unfolding staying_roots
staying_roots-All P ids [] h hs = h
staying_roots-All P ids (m ∷ members) h hs = elim (Bool-cases (is_quarantine m.disposition)) [
  | inl y ↦ rw y (staying_roots-All P ids members h (rw y at hs))
  | inr n ↦
      let both = rw n at hs in
      rw n (
        staying_roots-All P (upsert m.entry.root_id (λ _. tt) ids) members
          (keys_upsert-All P m.entry.root_id ids both.0 h) both.1)
]

staying_roots-IsSorted :
    (ids : SortedMap ℕ (Unit {0})) (members : List GroupMember)
    → IsSorted (keys ids)
    → IsSorted (keys (staying_roots ids members))
unfolding staying_roots
staying_roots-IsSorted ids [] h = h
staying_roots-IsSorted ids (m ∷ members) h = elim (Bool-cases (is_quarantine m.disposition)) [
  | inl y ↦ rw y (staying_roots-IsSorted ids members h)
  | inr n ↦ rw n (
      staying_roots-IsSorted (upsert m.entry.root_id (λ _. tt) ids) members
        (upsert-IsSorted m.entry.root_id (λ _. tt) ids h))
]

length-keys : (m : SortedMap ℕ (Unit {0})) → length (keys m) ≡ length m
length-keys [] = refl
length-keys (e ∷ m) = ap suc (length-keys m)

any_later :
    {A : Type 0} (test : A → Bool) (x : A) (xs : List A)
    → any test xs ≡ true
    → any test (x ∷ xs) ≡ true
any_later test x xs h = ground arith

kept_each :
    (test : SourceRef → Bool) (entries : List SourceRef)
    → All (λ s. test s ≡ true) entries
    → All (λ s. any (λ t. t.root_id == s.root_id && test t) entries ≡ true) entries
kept_each test [] h = tt
kept_each test (s ∷ entries) (h, hs) = (
  ground (arith, h),
  All-imp (λ t e. any_later (λ u. u.root_id == t.root_id && test u) s entries e) entries
      (kept_each test entries hs),
)

find_group-any :
    (test : Group → Bool) (id : Bytes) (groups : List Group) (g : Group)
    → find_group id groups ≡ some g
    → test g ≡ true
    → any test groups ≡ true
unfolding find_group
find_group-any test id [] g h t = cc
find_group-any test id (x ∷ groups) g h t = elim (Bool-cases (eqb x.group_id id)) [
  | inl y ↦ ground (arith, y, h, t)
  | inr n ↦ any_later test x groups (find_group-any test id groups g (rw n at h) t)
]

find_member-any :
    (key : EntryKey) (members : List GroupMember) (m : GroupMember)
    → find_member key members ≡ some m
    → m.disposition ≡ Disposition.quarantine
    → any (aside_as key) members ≡ true
unfolding find_member
find_member-any key [] m h d = cc
find_member-any key (x ∷ members) m h d = elim (Bool-cases (eqb (entry_key x.entry) key)) [
  | inl y ↦
      let same : x ≡ m = ground (arith, y, h) in
      let put : x.disposition ≡ Disposition.quarantine =
        ap (λ (z : GroupMember). z.disposition) same ∙ d in
      rw (put, y) refl
  | inr n ↦ any_later (aside_as key) x members (find_member-any key members m (rw n at h) d)
]

backed_aside :
    (p : Plan) (s : SourceRef) (id : Bytes) → IsBacked p s id → is_aside p (entry_key s) ≡ true
backed_aside p s id (g, m, at, found, put, may) =
    find_group-any (aside_in (entry_key s)) id p.groups g at
      (find_member-any (entry_key s) g.members m found put)

allowed_apart :
    (p : Plan) (key : EntryKey) (op : Op)
    → p.kind ≡ dedup
    → is_aside p key ≡ false
    → IsAllowed p op
    → reads key op ≡ false
allowed_apart p key (mkdir dest) k apart h = refl
allowed_apart p key (move s dest c) k apart h = cc
allowed_apart p key (extract s dest c) k apart h = cc
allowed_apart p key (Op.quarantine s dest g t) k apart h =
    elim (Bool-cases (eqb key (entry_key s))) [
      | inr n ↦ n
      | inl y ↦
          let put = backed_aside p s g h.1 in
          let there = ap (is_aside p) ((eqb_iff key (entry_key s)).0 y) ∙ put in cc
    ]

untaken :
    (p : Plan) (key : EntryKey)
    → p.kind ≡ dedup
    → is_aside p key ≡ false
    → (actions : List Action) → All (λ a. IsLegal p a.op) actions
    → any (λ (a : Action). reads key a.op) actions ≡ false
untaken p key k apart [] h = refl
untaken p key k apart (a ∷ actions) (h, hs) =
    rw (allowed_apart p key a.op k apart h.1.1, untaken p key k apart actions hs) refl

group-IsKept :
    (p : Plan) (g : Group)
    → p.kind ≡ dedup
    → All (λ a. IsLegal p a.op) p.actions
    → All (λ s. is_aside p (entry_key s) ≡ false) (staying g)
    → g.replica_floor.required ≤ remaining_after g
    → IsKept p g
unfolding remaining_after
group-IsKept p g k legal apart floor =
    let start : SortedMap ℕ (Unit {0}) = (g.keeper.entry.root_id, tt) ∷ [] in
    let roots = staying_roots start g.members in
    let left =
      All-imp (λ s h. ap not (untaken p (entry_key s) k h p.actions legal)) (staying g) apart in
    let there = kept_each (λ s. not (is_taken p (entry_key s))) (staying g) left in
    (
      keys roots,
      staying_roots-IsSorted start g.members (tt, tt),
      omega (arith, floor, length-keys roots),
      staying_roots-All (λ id. keeps_copy p (staying g) id ≡ true) start g.members (there.0, tt)
          there.1,
    )

is_dedup-eq : (k : PlanKind) → is_dedup k ≡ true → k ≡ dedup
is_dedup-eq organize h = cc
is_dedup-eq PlanKind.extract h = cc
is_dedup-eq dedup h = refl

dedup_or_none :
    (k : PlanKind) (gs : List Group)
    → (not (is_dedup k) && has_groups gs) ≡ false
    → (k ≡ dedup) ⊎ (gs ≡ [])
dedup_or_none k [] h = inr refl
dedup_or_none k (g ∷ gs) h = inl (is_dedup-eq k (ground (arith, h)))

invariants_hold-kind : (p : Plan) → invariants_hold p ≡ ok tt → (p.kind ≡ dedup) ⊎ (p.groups ≡ [])
unfolding invariants_hold
invariants_hold-kind p h =
    let (_, _, h₁) = >>=-eq-ok (check_roots [] p.roots) _ h in
    let (_, e, _) =
      >>=-eq-ok (bail_if (not (is_dedup p.kind) && has_groups p.groups) groups_on_non_dedup_plan) _
        h₁ in
    dedup_or_none p.kind p.groups (ground (arith, e))

-- Where both checks accept a plan, and no group has a keeper or another entry that is to stay as a
-- member to be put aside, of it or of another group, there are for each group at least as many
-- different roots as it requires, each with an entry of the group that no action takes away. The
-- checks do not refuse a plan that puts a keeper aside: the last condition is the planner's.
pub floors-IsKept :
    (blake3 : Bytes → Bytes) (p : Plan)
    → verify_derived blake3 p ≡ ok tt
    → invariants_hold p ≡ ok tt
    → All (λ g. All (λ s. is_aside p (entry_key s) ≡ false) (staying g)) p.groups
    → All (IsKept p) p.groups
floors-IsKept blake3 p derived h apart = elim (invariants_hold-kind p h) [
  | inr e ↦ subst (All (IsKept p)) (sym e) tt
  | inl k ↦
      All-imp (λ g (stays, floor). group-IsKept p g k (invariants_hold-IsLegal p h) stays floor)
        p.groups (All-and _ _ p.groups apart (floors_stated blake3 p derived h))
]
