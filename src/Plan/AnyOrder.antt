-- ===== src/Plan/AnyOrder.antt =====
-- src/core/plan.rs: the moves of an organize plan do not depend on their order.
use backupsage.Base.{
  ◌≡◌, refl, arith, ℕ, Bool, true, false, not, ◌&&◌, ◌||◌, Option, none, some, is_some, List, [],
  ◌∷◌, any, if◌then◌else◌, Result, ok, err, >>=-eq-ok, ok-injective, bail_if, Bool-cases, inl, inr,
}
use backupsage.Base.Order.{eqb, eqb_iff, nat_ord, int_ord, list_ord, pair_ord}
use backupsage.Base.SortedMap.{lookup, lookup-upsert}
use backupsage.Coverage.{Bytes}
use backupsage.Plan.Types.{organize, SourceRef, Op, mkdir, move, extract, Action, Plan, Root}
use backupsage.Plan.Hex.{
  PlanError, join_parts, validate_components, groups_on_non_dedup_plan, duplicate_source,
  illegal_op,
}
use backupsage.Plan.Ids.{entry_key, dest_of}
use backupsage.Plan.Canonical.{source_of}
use backupsage.Plan.Invariants.{
  DestKey, Seen, nothing_seen, is_organize, is_dedup, has_groups, check_root, see_dest, check_dest,
  check_content_hash, note_path, see_source, check_read, is_legal, check_op, check_action,
  check_actions, check_order, check_orders, check_roots, invariants_hold,
}

abbrev is_at : DestKey → ℕ → Result PlanError Bytes → Bool
is_at key root (ok path) = eqb key (root, path)
is_at key root (err e) = false

-- Whether a move puts a file at this root and path.
abbrev pub moves_to : DestKey → Op → Bool
moves_to key (mkdir dest) = false
moves_to key (move s dest c) = is_at key dest.root_id (join_parts dest.parts_raw)
moves_to key (extract s dest c) = false
moves_to key (Op.quarantine s dest g t) = false

abbrev source_is_at : DestKey → Option SourceRef → Bool
source_is_at key none = false
source_is_at key (some s) = is_at key s.root_id (join_parts s.parts_raw)

-- Whether an operation takes the file at this root and path.
abbrev pub takes_from : DestKey → Op → Bool
takes_from key op = source_is_at key (source_of op)

abbrev is_noted : DestKey → Seen → Bool
is_noted key seen = is_some (lookup key seen.organize_source_paths)

-- A path that was noted, or that an operation takes, is noted afterwards.
abbrev Noted : DestKey → Bool → Seen → Seen → Type 0
Noted key taken seen seen' = (taken || is_noted key seen) ≡ true → is_noted key seen' ≡ true

see_dest-same :
    (op : Op) (key : DestKey) (seen seen' : Seen)
    → see_dest op key seen ≡ ok seen'
    → seen'.organize_source_paths ≡ seen.organize_source_paths
unfolding see_dest
see_dest-same op key seen seen' h = ground arith

check_dest-same :
    (roots : List Root) (op : Op) (seen seen' : Seen)
    → check_dest roots op seen ≡ ok seen'
    → seen'.organize_source_paths ≡ seen.organize_source_paths
unfolding check_dest
check_dest-same roots op seen seen' h =
    let (_, _, h₁) = >>=-eq-ok (check_root roots (dest_of op).root_id) _ h in
    let (_, _, h₂) = >>=-eq-ok (validate_components (dest_of op).parts_raw) _ h₁ in
    let (path, _, h₃) = >>=-eq-ok (join_parts (dest_of op).parts_raw) _ h₂ in
    see_dest-same op ((dest_of op).root_id, path) seen seen' h₃

see_source-Noted :
    (key : DestKey) (s : SourceRef) (seen seen' : Seen)
    → see_source organize s seen ≡ ok seen'
    → Noted key (source_is_at key (some s)) seen seen'
unfolding see_source note_path
see_source-Noted key s seen seen' h =
    let (_, _, h₁) =
      >>=-eq-ok (bail_if (is_some (lookup (entry_key s) seen.source_keys)) duplicate_source) _ h in
    let (path, j, h₂) = >>=-eq-ok (join_parts s.parts_raw) _ h₁ in
    rw j (λ taken. rw (← ok-injective h₂) (
      rw (lookup-upsert (s.root_id, path) key (λ _. tt) seen.organize_source_paths) (ground arith)))

check_read-Noted :
    (roots : List Root) (key : DestKey) (o : Option SourceRef) (seen seen' : Seen)
    → check_read roots organize o seen ≡ ok seen'
    → Noted key (source_is_at key o) seen seen'
unfolding check_read
check_read-Noted roots key none seen seen' h = ground arith
check_read-Noted roots key (some s) seen seen' h =
    let (_, _, h₁) = >>=-eq-ok (check_root roots s.root_id) _ h in
    let (_, _, h₂) = >>=-eq-ok (validate_components s.parts_raw) _ h₁ in
    let (_, _, h₃) = >>=-eq-ok (check_content_hash s.content_hash) _ h₂ in
    see_source-Noted key s seen seen' h₃

check_action-Noted :
    (p : Plan) (key : DestKey) (op : Op) (seen seen' : Seen)
    → p.kind ≡ organize
    → check_action p op seen ≡ ok seen'
    → Noted key (takes_from key op) seen seen'
unfolding check_action
check_action-Noted p key op seen seen' kind h =
    let (a, e, h₁) = >>=-eq-ok (check_dest p.roots op seen) _ h in
    let (b, f, h₂) = >>=-eq-ok (check_read p.roots p.kind (source_of op) a) _ h₁ in
    let (_, _, h₃) = >>=-eq-ok (bail_if (not (is_legal p.kind op)) illegal_op) _ h₂ in
    let (_, _, h₄) = >>=-eq-ok (check_op p op) _ h₃ in
    let noted = check_read-Noted p.roots key (source_of op) a b (rw (← kind) f) in
    λ taken. rw (← ok-injective h₄) (noted (rw (check_dest-same p.roots op seen a e) taken))

check_actions-Noted :
    (p : Plan) (key : DestKey) (actions : List Action) (seen seen' : Seen)
    → p.kind ≡ organize
    → check_actions p actions seen ≡ ok seen'
    → Noted key (any (λ a. takes_from key a.op) actions) seen seen'
unfolding check_actions
check_actions-Noted p key [] seen seen' kind h = ground arith
check_actions-Noted p key (a ∷ actions) seen seen' kind h =
    let (next, e, h₁) = >>=-eq-ok (check_action p a.op seen) _ h in
    ground (
      arith,
      check_action-Noted p key a.op seen next kind e,
      check_actions-Noted p key actions next seen' kind h₁,
    )

check_order-none :
    (seen : Seen) (key : DestKey) (op : Op)
    → check_order seen.organize_source_paths op ≡ ok tt
    → is_noted key seen ≡ true
    → moves_to key op ≡ false
check_order-none seen key (mkdir dest) h noted = refl
check_order-none seen key (extract s dest c) h noted = refl
check_order-none seen key (Op.quarantine s dest g t) h noted = refl
check_order-none seen key (move s dest c) h noted =
    let (path, j, h₁) = >>=-eq-ok (join_parts dest.parts_raw) _ h in
    rw j (elim (Bool-cases (eqb key (dest.root_id, path))) [
      | inl e ↦
          let there : is_some (lookup (dest.root_id, path) seen.organize_source_paths) ≡ true =
            rw (← (eqb_iff key (dest.root_id, path)).0 e) noted in
          ground (arith, there)
      | inr e ↦ e
    ])

check_orders-none :
    (seen : Seen) (key : DestKey) (actions : List Action)
    → check_orders seen.organize_source_paths actions ≡ ok tt
    → is_noted key seen ≡ true
    → any (λ a. moves_to key a.op) actions ≡ false
unfolding check_orders
check_orders-none seen key [] h noted = refl
check_orders-none seen key (a ∷ actions) h noted =
    let (_, e, h₁) = >>=-eq-ok (check_order seen.organize_source_paths a.op) _ h in
    rw (check_order-none seen key a.op e noted, check_orders-none seen key actions h₁ noted)

-- In an organize plan that `invariants_hold` accepts no move puts a file where any action takes
-- one from.
pub moves_any_order :
    (p : Plan) (place : DestKey)
    → p.kind ≡ organize
    → invariants_hold p ≡ ok tt
    → (any (λ a. moves_to place a.op) p.actions && any (λ a. takes_from place a.op) p.actions)
      ≡ false
unfolding invariants_hold
moves_any_order p place kind h =
    let (_, _, h₁) = >>=-eq-ok (check_roots [] p.roots) _ h in
    let (_, _, h₂) =
      >>=-eq-ok (bail_if (not (is_dedup p.kind) && has_groups p.groups) groups_on_non_dedup_plan) _
        h₁ in
    let (seen, e, h₃) = >>=-eq-ok (check_actions p p.actions nothing_seen) _ h₂ in
    let (_, ordered, _) =
      >>=-eq-ok
        (if is_organize p.kind then check_orders seen.organize_source_paths p.actions else ok tt) _
        h₃ in
    let orders : check_orders seen.organize_source_paths p.actions ≡ ok tt =
      ground (arith, ordered, kind) in
    ground (
      arith,
      check_actions-Noted p place p.actions nothing_seen seen kind e,
      check_orders-none seen place p.actions orders,
    )
