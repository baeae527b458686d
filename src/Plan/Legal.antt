-- ===== src/Plan/Legal.antt =====
-- src/core/plan.rs: each action of a plan that `invariants_hold` accepts is a legal one.
use backupsage.Base.{
  ◌≡◌, refl, subst, arith, ℕ, true, not, ◌&&◌, Option, none, some, is_some, List, [], ◌∷◌, All, ok,
  >>=-eq-ok, bail_if, Option-cases, inl, inr,
}
use backupsage.Base.Order.{nat_ord, int_ord, list_ord, pair_ord}
use backupsage.Coverage.{Bytes}
use backupsage.Plan.Types.{
  PlanKind, organize, dedup, SourceType, tar, dir, SourceBinding, Root, SourceRef, Op, mkdir, move,
  extract, Action, Disposition, GroupMember, Group, Plan,
}
use backupsage.Plan.Hex.{
  validate_component, validate_components, illegal_op, unknown_root_id, groups_on_non_dedup_plan,
}
use backupsage.Plan.Ids.{entry_key, dest_of}
use backupsage.Plan.Canonical.{source_of}
use backupsage.Plan.Invariants.{
  Seen, nothing_seen, find_root, check_root, find_group, find_member, check_member, check_backing,
  binding_of, wants_tar, wants_dir, is_legal, is_dedup, has_groups, check_dest, check_read,
  check_op, check_action, check_actions, check_roots, invariants_hold,
}
use backupsage.Plan.Joined.{IsComponent, validate_component-IsComponent}

-- A root of the plan has the id.
abbrev pub IsRoot : Plan → ℕ → Type 0
IsRoot p id = (r : Root) × (find_root id p.roots ≡ some r)

-- A source that is bound under this id is of a type.
abbrev pub IsBound : SourceType → Option SourceBinding → Type 0
IsBound t none = Unit {0}
IsBound t (some b) = b.source_type ≡ t

-- A part of a path stands for a name that stays in its directory.
abbrev pub IsName : Bytes → Type 0
IsName c = (bytes : Bytes) × IsComponent c bytes

-- A group of the plan has the entry as a member that may be, and is to be, put aside.
abbrev pub IsBacked : Plan → SourceRef → Bytes → Type 0
IsBacked p s group_id =
    (g : Group) × (m : GroupMember) × (find_group group_id p.groups ≡ some g)
    × (find_member (entry_key s) g.members ≡ some m)
    × (m.disposition ≡ Disposition.quarantine)
    × (m.actionable ≡ true)

-- What belongs to one kind of operation: the plan's kind, and what is read.
abbrev pub IsAllowed : Plan → Op → Type 0
IsAllowed p (mkdir dest) = Unit {0}
IsAllowed p (move s dest c) =
    (p.kind ≡ organize) × IsBound dir (binding_of (find_root s.root_id p.roots))
IsAllowed p (extract s dest c) =
    (p.kind ≡ PlanKind.extract) × IsBound tar (binding_of (find_root s.root_id p.roots))
IsAllowed p (Op.quarantine s dest g t) = (p.kind ≡ dedup) × IsBacked p s g

-- The root is known, and each part is a name.
abbrev pub IsPlace : Plan → ℕ → List Bytes → Type 0
IsPlace p id parts = IsRoot p id × All IsName parts

abbrev pub IsReadable : Plan → Option SourceRef → Type 0
IsReadable p none = Unit {0}
IsReadable p (some s) = IsPlace p s.root_id s.parts_raw

abbrev pub IsLegal : Plan → Op → Type 0
IsLegal p op =
    IsPlace p (dest_of op).root_id (dest_of op).parts_raw
    × (IsReadable p (source_of op) × IsAllowed p op)

check_root-IsRoot : (p : Plan) (id : ℕ) → check_root p.roots id ≡ ok tt → IsRoot p id
unfolding check_root
check_root-IsRoot p id h = elim (Option-cases (find_root id p.roots)) [
  | inl e ↦ ground (arith, e)
  | inr found ↦ found
]

validate_components-All : (cs : List Bytes) → validate_components cs ≡ ok tt → All IsName cs
unfolding validate_components
validate_components-All [] h = tt
validate_components-All (c ∷ cs) h =
    let (_, e, h₁) = >>=-eq-ok (validate_component c) _ h in
    (validate_component-IsComponent c e, validate_components-All cs h₁)

wants_tar-IsBound : (o : Option SourceBinding) → wants_tar o ≡ ok tt → IsBound tar o
wants_tar-IsBound none h = tt
wants_tar-IsBound (some b) h = ground arith

wants_dir-IsBound : (o : Option SourceBinding) → wants_dir o ≡ ok tt → IsBound dir o
wants_dir-IsBound none h = tt
wants_dir-IsBound (some b) h = ground arith

check_member-eq :
    (o : Option GroupMember)
    → check_member o ≡ ok tt
    → (m : GroupMember) × (o ≡ some m)
      × (m.disposition ≡ Disposition.quarantine)
      × (m.actionable ≡ true)
unfolding check_member
check_member-eq none h = cc
check_member-eq (some m) h = (m, refl, ground arith, ground arith)

check_backing-IsBacked :
    (p : Plan) (s : SourceRef) (id : Bytes)
    → check_backing s (find_group id p.groups) ≡ ok tt
    → IsBacked p s id
unfolding check_backing
check_backing-IsBacked p s id h = elim (Option-cases (find_group id p.groups)) [
  | inl e ↦ ground (arith, e)
  | inr (g, e) ↦
      let (m, found, put_aside, may) =
        check_member-eq (find_member (entry_key s) g.members)
          (subst (λ o. check_backing s o ≡ ok tt) e h) in
      (g, m, e, found, put_aside, may)
]

check_op-IsAllowed :
    (p : Plan) (op : Op) → is_legal p.kind op ≡ true → check_op p op ≡ ok tt → IsAllowed p op
unfolding is_legal check_op
check_op-IsAllowed p (mkdir dest) k h = tt
check_op-IsAllowed p (move s dest c) k h =
    let (_, _, h₁) =
      >>=-eq-ok (bail_if (not (is_some (find_root s.root_id p.roots))) unknown_root_id) _ h in
    (ground arith, wants_dir-IsBound (binding_of (find_root s.root_id p.roots)) h₁)
check_op-IsAllowed p (extract s dest c) k h =
    let (_, _, h₁) =
      >>=-eq-ok (bail_if (not (is_some (find_root s.root_id p.roots))) unknown_root_id) _ h in
    (ground arith, wants_tar-IsBound (binding_of (find_root s.root_id p.roots)) h₁)
check_op-IsAllowed p (Op.quarantine s dest g t) k h = (ground arith, check_backing-IsBacked p s g h)

check_dest-IsPlace :
    (p : Plan) (op : Op) (seen seen' : Seen)
    → check_dest p.roots op seen ≡ ok seen'
    → IsPlace p (dest_of op).root_id (dest_of op).parts_raw
unfolding check_dest
check_dest-IsPlace p op seen seen' h =
    let (_, e, h₁) = >>=-eq-ok (check_root p.roots (dest_of op).root_id) _ h in
    let (_, f, _) = >>=-eq-ok (validate_components (dest_of op).parts_raw) _ h₁ in
    (check_root-IsRoot p (dest_of op).root_id e, validate_components-All (dest_of op).parts_raw f)

check_read-IsReadable :
    (p : Plan) (o : Option SourceRef) (seen seen' : Seen)
    → check_read p.roots p.kind o seen ≡ ok seen'
    → IsReadable p o
unfolding check_read
check_read-IsReadable p none seen seen' h = tt
check_read-IsReadable p (some s) seen seen' h =
    let (_, e, h₁) = >>=-eq-ok (check_root p.roots s.root_id) _ h in
    let (_, f, _) = >>=-eq-ok (validate_components s.parts_raw) _ h₁ in
    (check_root-IsRoot p s.root_id e, validate_components-All s.parts_raw f)

check_action-IsLegal :
    (p : Plan) (op : Op) (seen seen' : Seen) → check_action p op seen ≡ ok seen' → IsLegal p op
unfolding check_action
check_action-IsLegal p op seen seen' h =
    let (a, e, h₁) = >>=-eq-ok (check_dest p.roots op seen) _ h in
    let (b, f, h₂) = >>=-eq-ok (check_read p.roots p.kind (source_of op) a) _ h₁ in
    let (_, legal, h₃) = >>=-eq-ok (bail_if (not (is_legal p.kind op)) illegal_op) _ h₂ in
    let (_, g, _) = >>=-eq-ok (check_op p op) _ h₃ in
    (
      check_dest-IsPlace p op seen a e,
      (check_read-IsReadable p (source_of op) a b f, check_op-IsAllowed p op (ground arith) g),
    )

check_actions-IsLegal :
    (p : Plan) (actions : List Action) (seen seen' : Seen)
    → check_actions p actions seen ≡ ok seen'
    → All (λ a. IsLegal p a.op) actions
unfolding check_actions
check_actions-IsLegal p [] seen seen' h = tt
check_actions-IsLegal p (a ∷ actions) seen seen' h =
    let (next, e, h₁) = >>=-eq-ok (check_action p a.op seen) _ h in
    (check_action-IsLegal p a.op seen next e, check_actions-IsLegal p actions next seen' h₁)

-- In a plan that `invariants_hold` accepts each action has known roots and paths of safe names, is
-- of a kind that the plan may have, moves only out of a directory and extracts only out of an
-- archive where its root is bound, and puts aside only what a group of the plan has as an
-- actionable member to be put aside.
pub invariants_hold-IsLegal :
    (p : Plan) → invariants_hold p ≡ ok tt → All (λ a. IsLegal p a.op) p.actions
unfolding invariants_hold
invariants_hold-IsLegal p h =
    let (_, _, h₁) = >>=-eq-ok (check_roots [] p.roots) _ h in
    let (_, _, h₂) =
      >>=-eq-ok (bail_if (not (is_dedup p.kind) && has_groups p.groups) groups_on_non_dedup_plan) _
        h₁ in
    let (seen, e, _) = >>=-eq-ok (check_actions p p.actions nothing_seen) _ h₂ in
    check_actions-IsLegal p p.actions nothing_seen seen e
