-- ===== src/Plan/Targets.antt =====
-- src/core/plan.rs: in a plan that `invariants_hold` accepts, no file is read or written twice.
use backupsage.Base.{
  ◌≡◌, refl, arith, ℕ, ◌+◌, ◌≤◌, Bool, false, not, ◌&&◌, Option, none, some, is_some, List, [], ◌∷◌,
  count, if◌then◌else◌, Result, ok, err, >>=-eq-ok, ok-injective, bail_if, Bool-cases, inl, inr,
}
use backupsage.Base.Order.{Ord, eqb, eqb_iff, nat_ord, int_ord, list_ord, pair_ord}
use backupsage.Base.SortedMap.{SortedMap, lookup, upsert, lookup-upsert}
use backupsage.Coverage.{Bytes}
use backupsage.Plan.Types.{PlanKind, organize, dedup, SourceRef, EntryKey, Op, Action, Plan, Root}
use backupsage.Plan.Hex.{
  PlanError, join_parts, validate_components, groups_on_non_dedup_plan, duplicate_source,
  illegal_op,
}
use backupsage.Plan.Ids.{entry_key, dest_of}
use backupsage.Plan.Canonical.{source_of}
use backupsage.Plan.Invariants.{
  DestKey, Seen, nothing_seen, is_mkdir, check_root, see_dest, check_dest, check_content_hash,
  note_path, see_source, check_read, is_legal, check_op, is_dedup, has_groups, check_action,
  check_actions, check_roots, invariants_hold,
}

abbrev one_if : Bool → ℕ
one_if b = if b then 1 else 0

abbrev is_key : DestKey → ℕ → Result PlanError Bytes → Bool
is_key key root (ok path) = eqb key (root, path)
is_key key root (err e) = false

-- Whether an operation other than `mkdir` writes to this root and path.
abbrev pub writes : DestKey → Op → Bool
writes key op =
    not (is_mkdir op) && is_key key (dest_of op).root_id (join_parts (dest_of op).parts_raw)

abbrev is_source : EntryKey → Option SourceRef → Bool
is_source key none = false
is_source key (some s) = eqb key (entry_key s)

-- Whether an operation reads this entry.
abbrev pub reads : EntryKey → Op → Bool
reads key op = is_source key (source_of op)

abbrev dest_seen : DestKey → Seen → ℕ
dest_seen key seen = one_if (is_some (lookup key seen.dest_keys))

abbrev source_seen : EntryKey → Seen → ℕ
source_seen key seen = one_if (is_some (lookup key seen.source_keys))

-- Whether a key is in a set.
abbrev holds {ℓ} : {K : Type ℓ} → ⦃o : Ord K⦄ → K → SortedMap K (Unit {0}) → ℕ
holds key m = one_if (is_some (lookup key m))

insert_fresh :
    {K : Type 0}
    → ⦃o : Ord K⦄ → (key new : K) (m : SortedMap K (Unit {0})) → is_some (lookup new m) ≡ false
    → one_if (eqb key new) + holds key m ≤ holds key (upsert new (λ _. tt) m)
insert_fresh key new m fresh = elim (Bool-cases (eqb key new)) [
  | inl e ↦
      let at : is_some (lookup key m) ≡ false = rw ((eqb_iff key new).0 e) fresh in
      rw (lookup-upsert new key (λ _. tt) m, e, at) (ground arith)
  | inr e ↦ rw (lookup-upsert new key (λ _. tt) m, e) (ground arith)
]

see_dest-seen :
    (key : DestKey) (op : Op) (path : Bytes) (seen seen' : Seen)
    → join_parts (dest_of op).parts_raw ≡ ok path
    → see_dest op ((dest_of op).root_id, path) seen ≡ ok seen'
    → (one_if (writes key op) + dest_seen key seen ≤ dest_seen key seen')
      × (seen'.source_keys ≡ seen.source_keys)
unfolding see_dest
see_dest-seen key op path seen seen' j h =
    rw j (ground (arith, insert_fresh key ((dest_of op).root_id, path) seen.dest_keys))

check_dest-seen :
    (roots : List Root) (key : DestKey) (op : Op) (seen seen' : Seen)
    → check_dest roots op seen ≡ ok seen'
    → (one_if (writes key op) + dest_seen key seen ≤ dest_seen key seen')
      × (seen'.source_keys ≡ seen.source_keys)
unfolding check_dest
check_dest-seen roots key op seen seen' h =
    let (_, _, h₁) = >>=-eq-ok (check_root roots (dest_of op).root_id) _ h in
    let (_, _, h₂) = >>=-eq-ok (validate_components (dest_of op).parts_raw) _ h₁ in
    let (path, j, h₃) = >>=-eq-ok (join_parts (dest_of op).parts_raw) _ h₂ in
    see_dest-seen key op path seen seen' j h₃

note_path-same :
    (kind : PlanKind) (s : SourceRef) (seen seen' : Seen)
    → note_path kind s seen ≡ ok seen'
    → (seen'.source_keys ≡ seen.source_keys) × (seen'.dest_keys ≡ seen.dest_keys)
unfolding note_path
note_path-same PlanKind.extract s seen seen' h = rw (← ok-injective h) (refl, refl)
note_path-same dedup s seen seen' h = rw (← ok-injective h) (refl, refl)
note_path-same organize s seen seen' h =
    let (path, _, h₁) = >>=-eq-ok (join_parts s.parts_raw) _ h in
    rw (← ok-injective h₁) (refl, refl)

see_source-seen :
    (kind : PlanKind) (key : EntryKey) (s : SourceRef) (seen seen' : Seen)
    → see_source kind s seen ≡ ok seen'
    → (one_if (eqb key (entry_key s)) + source_seen key seen ≤ source_seen key seen')
      × (seen'.dest_keys ≡ seen.dest_keys)
unfolding see_source
see_source-seen kind key s seen seen' h =
    let (_, fresh, h₁) =
      >>=-eq-ok (bail_if (is_some (lookup (entry_key s) seen.source_keys)) duplicate_source) _ h in
    let noted : Seen = record seen {
      source_keys = upsert (entry_key s) (λ _. tt) seen.source_keys;
    } in
    let (same_keys, same_dests) = note_path-same kind s noted seen' h₁ in
    (rw same_keys (insert_fresh key (entry_key s) seen.source_keys (ground arith)), same_dests)

check_read-seen :
    (roots : List Root) (kind : PlanKind) (key : EntryKey) (o : Option SourceRef)
    (seen seen' : Seen)
    → check_read roots kind o seen ≡ ok seen'
    → (one_if (is_source key o) + source_seen key seen ≤ source_seen key seen')
      × (seen'.dest_keys ≡ seen.dest_keys)
unfolding check_read
check_read-seen roots kind key none seen seen' h = ground arith
check_read-seen roots kind key (some s) seen seen' h =
    let (_, _, h₁) = >>=-eq-ok (check_root roots s.root_id) _ h in
    let (_, _, h₂) = >>=-eq-ok (validate_components s.parts_raw) _ h₁ in
    let (_, _, h₃) = >>=-eq-ok (check_content_hash s.content_hash) _ h₂ in
    see_source-seen kind key s seen seen' h₃

check_action-seen :
    (p : Plan) (dest : DestKey) (entry : EntryKey) (op : Op) (seen seen' : Seen)
    → check_action p op seen ≡ ok seen'
    → (one_if (writes dest op) + dest_seen dest seen ≤ dest_seen dest seen')
      × (one_if (reads entry op) + source_seen entry seen ≤ source_seen entry seen')
unfolding check_action
check_action-seen p dest entry op seen seen' h =
    let (a, e, h₁) = >>=-eq-ok (check_dest p.roots op seen) _ h in
    let (b, f, h₂) = >>=-eq-ok (check_read p.roots p.kind (source_of op) a) _ h₁ in
    let (_, _, h₃) = >>=-eq-ok (bail_if (not (is_legal p.kind op)) illegal_op) _ h₂ in
    let (_, _, h₄) = >>=-eq-ok (check_op p op) _ h₃ in
    let (wrote, kept) = check_dest-seen p.roots dest op seen a e in
    let (read, kept') = check_read-seen p.roots p.kind entry (source_of op) a b f in
    let same = ok-injective h₄ in rw (← same) (ground arith, ground arith)

check_actions-seen :
    (p : Plan) (dest : DestKey) (entry : EntryKey) (actions : List Action) (seen seen' : Seen)
    → check_actions p actions seen ≡ ok seen'
    → (count (λ a. writes dest a.op) actions + dest_seen dest seen ≤ 1)
      × (count (λ a. reads entry a.op) actions + source_seen entry seen ≤ 1)
unfolding check_actions
check_actions-seen p dest entry [] seen seen' h = ground arith
check_actions-seen p dest entry (a ∷ actions) seen seen' h =
    let (next, e, h₁) = >>=-eq-ok (check_action p a.op seen) _ h in
    let (w, r) = check_action-seen p dest entry a.op seen next e in
    let (ws, rs) = check_actions-seen p dest entry actions next seen' h₁ in
    (ground arith, ground arith)

-- In a plan that `invariants_hold` accepts at most one action other than `mkdir` writes to any
-- place of a root, and at most one action reads any entry.
pub unique_targets :
    (p : Plan) (dest : DestKey) (entry : EntryKey)
    → invariants_hold p ≡ ok tt
    → (count (λ a. writes dest a.op) p.actions ≤ 1) × (count (λ a. reads entry a.op) p.actions ≤ 1)
unfolding invariants_hold lookup
unique_targets p dest entry h =
    let (_, _, h₁) = >>=-eq-ok (check_roots [] p.roots) _ h in
    let (_, _, h₂) =
      >>=-eq-ok (bail_if (not (is_dedup p.kind) && has_groups p.groups) groups_on_non_dedup_plan) _
        h₁ in
    let (seen, e, _) = >>=-eq-ok (check_actions p p.actions nothing_seen) _ h₂ in
    let (w, r) = check_actions-seen p dest entry p.actions nothing_seen seen e in
    (omega arith, omega arith)
