-- ===== src/Plan/Derived.antt =====
-- src/core/plan.rs: what a plan that `verify_derived` accepts says of itself.
use backupsage.Base.{
  ◌≡◌, refl, ap, subst, arith, ℕ, ◌+◌, ◌≤◌, ltb, not, ◌&&◌, List, [], ◌∷◌, map, All, All-imp,
  All-and, All-map, All-of, Result, ok, >>=-eq-ok, ok-injective, bail_if, traverse, if◌then◌else◌,
  ◌↔◌, ◌∙◌,
}
use backupsage.Base.Order.{nat_ord, int_ord, list_ord, pair_ord}
use backupsage.Base.Sort.{All-sort_by}
use backupsage.Coverage.{Bytes}
use backupsage.Plan.Types.{Op, mkdir, move, extract, Action, Group, Plan, Plan-discrete}
use backupsage.Plan.Hex.{PlanError, groups_on_non_dedup_plan, replica_floor_broken}
use backupsage.Plan.Ids.{compute_action_id, compute_group_id, compute_slot, group_elements}
use backupsage.Plan.Roots.{canonicalize_roots}
use backupsage.Plan.Conflicts.{canonicalize_conflicts}
use backupsage.Plan.Canonical.{
  canonicalize_display_fields, remaining_after, sort_groups, sort_members, finish_group,
  canonicalize_groups, SortKey, action_sort_key, keyed, sort_keyed, number_actions, derive_slot,
  derive_id, canonicalize_actions, recompute_summary, finish_summary, canonicalize, refuse_unless,
  verify_derived,
}
use backupsage.Plan.Invariants.{
  nothing_seen, check_roots, check_actions, check_orders, check_floors, is_organize, is_dedup,
  has_groups, invariants_hold,
}

-- What a step gives for each element that it succeeds on.
All-traverse :
    {A : Type 0} {B : Type 0} (f : A → Result PlanError B) (P : A → Type 0) (Q : B → Type 0)
    → ((x : A) (y : B) → P x → f x ≡ ok y → Q y)
    → (xs : List A) (ys : List B) → All P xs
    → traverse f xs ≡ ok ys
    → All Q ys
unfolding traverse
All-traverse f P Q step [] ys h e = rw (← ok-injective e) tt
All-traverse f P Q step (x ∷ xs) ys (p, h) e =
    let (y, e₁, r) = >>=-eq-ok (f x) _ e in
    let (rest, e₂, r₁) = >>=-eq-ok (traverse f xs) _ r in
    rw (← ok-injective r₁) (step x y p e₁, All-traverse f P Q step xs rest h e₂)

module _ (blake3 : Bytes → Bytes) where
  -- The id and the floor of a group follow from its other facts.
  pub record IsDerivedGroup (g : Group) : Type 0 where
    pub id_eq : g.group_id ≡ compute_group_id blake3 g
    pub remaining_eq : g.replica_floor.remaining_after ≡ remaining_after g

  -- The slot is the one that the group and the source determine.
  abbrev pub IsSlotted : Op → Type 0
  IsSlotted (mkdir dest) = Unit {0}
  IsSlotted (move s dest c) = Unit {0}
  IsSlotted (extract s dest c) = Unit {0}
  IsSlotted (Op.quarantine s dest g t) = t ≡ compute_slot blake3 g s

  -- The id of an action follows from its operation.
  pub record IsDerivedAction (a : Action) : Type 0 where
    pub id_eq : compute_action_id blake3 a.op ≡ ok a.action_id
    pub slotted : IsSlotted a.op

  -- Every id, slot and replica count and the summary are the ones that the rest determines.
  pub record IsDerived (p : Plan) : Type 0 where
    pub groups_derived : All IsDerivedGroup p.groups
    pub actions_derived : All IsDerivedAction p.actions
    pub summary_derived : p.summary ≡ recompute_summary p

  finish_group-IsDerivedGroup : (g : Group) → IsDerivedGroup (finish_group blake3 g)
  unfolding finish_group compute_group_id group_elements remaining_after
  finish_group-IsDerivedGroup g = record { id_eq = refl; remaining_eq = refl }

  canonicalize_groups-IsDerivedGroup :
      (p : Plan) → All IsDerivedGroup (canonicalize_groups blake3 p).groups
  unfolding canonicalize_groups
  canonicalize_groups-IsDerivedGroup p =
      let gs =
        sort_groups (map (λ (g : Group). record g { members = sort_members g.members }) p.groups) in
      All-map IsDerivedGroup (finish_group blake3) gs (All-of finish_group-IsDerivedGroup gs)

  derive_slot-IsSlotted : (op : Op) → IsSlotted (derive_slot blake3 op)
  unfolding derive_slot
  derive_slot-IsSlotted (mkdir dest) = tt
  derive_slot-IsSlotted (move s dest c) = tt
  derive_slot-IsSlotted (extract s dest c) = tt
  derive_slot-IsSlotted (Op.quarantine s dest g t) = refl

  abbrev Slotted : SortKey × Action → Type 0
  Slotted x = IsSlotted x.1.op

  keyed-Slotted : (a : Action) (x : SortKey × Action) → IsSlotted a.op → keyed a ≡ ok x → Slotted x
  unfolding keyed
  keyed-Slotted a x slot e =
      let (key, _, r) = >>=-eq-ok (action_sort_key a.op) _ e in rw (← ok-injective r) slot

  sort_keyed-Slotted : (xs : List (SortKey × Action)) → All Slotted xs → All Slotted (sort_keyed xs)
  unfolding sort_keyed nat_ord int_ord list_ord pair_ord
  sort_keyed-Slotted xs h = All-sort_by {K = SortKey} (λ (x : SortKey × Action). x.0) Slotted xs h

  number_actions-IsSlotted :
      (i : ℕ) (xs : List (SortKey × Action))
      → All Slotted xs
      → All (λ a. IsSlotted a.op) (number_actions i xs)
  unfolding number_actions
  number_actions-IsSlotted i [] h = tt
  number_actions-IsSlotted i (x ∷ xs) (p, h) = (p, number_actions-IsSlotted (i + 1) xs h)

  derive_id-IsDerivedAction :
      (a b : Action) → IsSlotted a.op → derive_id blake3 a ≡ ok b → IsDerivedAction b
  unfolding derive_id
  derive_id-IsDerivedAction a b slot e =
      let (id, is_id, r) = >>=-eq-ok (compute_action_id blake3 a.op) _ e in
      subst IsDerivedAction (ok-injective r) (record { id_eq = is_id; slotted = slot })

  canonicalize_actions-IsDerivedAction :
      (p q : Plan)
      → canonicalize_actions blake3 p ≡ ok q
      → All IsDerivedAction q.actions × (q.groups ≡ p.groups)
  unfolding canonicalize_actions
  canonicalize_actions-IsDerivedAction p q h =
      let start = map (λ (a : Action). record a { op = derive_slot blake3 a.op }) p.actions in
      let (with_keys, e, h₁) = >>=-eq-ok (traverse keyed start) _ h in
      let (actions, f, h₂) =
        >>=-eq-ok (traverse (derive_id blake3) (number_actions 0 (sort_keyed with_keys))) _ h₁ in
      let started =
        All-map (λ a. IsSlotted a.op) (λ (a : Action). record a { op = derive_slot blake3 a.op })
          p.actions (All-of (λ a. derive_slot-IsSlotted a.op) p.actions) in
      let all_keyed =
        All-traverse keyed (λ a. IsSlotted a.op) Slotted keyed-Slotted start with_keys started e in
      let numbered =
        number_actions-IsSlotted 0 (sort_keyed with_keys)
          (sort_keyed-Slotted with_keys all_keyed) in
      subst (λ r. All IsDerivedAction r.actions × (r.groups ≡ p.groups)) (ok-injective h₂)
        (
          All-traverse (derive_id blake3) (λ a. IsSlotted a.op) IsDerivedAction
              derive_id-IsDerivedAction (number_actions 0 (sort_keyed with_keys)) actions numbered
              f,
          refl,
        )

  finish_summary-eq :
      (p : Plan) → (finish_summary blake3 p).summary ≡ recompute_summary (finish_summary blake3 p)
  unfolding finish_summary recompute_summary
  finish_summary-eq p = refl

  finish_summary-same :
      (p : Plan)
      → ((finish_summary blake3 p).actions ≡ p.actions)
        × ((finish_summary blake3 p).groups ≡ p.groups)
  unfolding finish_summary
  finish_summary-same p = (refl, refl)

  canonicalize-IsDerived : (p q : Plan) → canonicalize blake3 p ≡ ok q → IsDerived q
  unfolding canonicalize
  canonicalize-IsDerived p q h =
      let (p₁, _, h₁) = >>=-eq-ok (canonicalize_roots p) _ h in
      let (p₂, _, h₂) = >>=-eq-ok (canonicalize_conflicts p₁) _ h₁ in
      let (p₃, _, h₃) = >>=-eq-ok (canonicalize_display_fields p₂) _ h₂ in
      let (p₄, e, h₄) =
        >>=-eq-ok (canonicalize_actions blake3 (canonicalize_groups blake3 p₃)) _ h₃ in
      let (derived, kept) =
        canonicalize_actions-IsDerivedAction (canonicalize_groups blake3 p₃) p₄ e in
      let (same_actions, same_groups) = finish_summary-same p₄ in
      subst IsDerived (ok-injective h₄) (record {
        groups_derived = rw (same_groups, kept) (canonicalize_groups-IsDerivedGroup p₃);
        actions_derived = rw same_actions derived;
        summary_derived = finish_summary-eq p₄;
      })

  refuse_unless-eq : {p q : Plan} (d : Dec (p ≡ q)) → refuse_unless blake3 d ≡ ok tt → p ≡ q
  refuse_unless-eq (yes e) h = e
  refuse_unless-eq (no n) h = cc

  refuse_unless_refl : {p : Plan} (d : Dec (p ≡ p)) → refuse_unless blake3 d ≡ ok tt
  refuse_unless_refl (yes e) = refl
  refuse_unless_refl (no n) = elim (n refl) [ ]

  -- `verify_derived` accepts a plan exactly when `canonicalize` gives back the plan itself.
  pub verify_derived_iff :
      (p : Plan) → (verify_derived blake3 p ≡ ok tt) ↔ (canonicalize blake3 p ≡ ok p)
  unfolding verify_derived
  verify_derived_iff p = (
    λ h.
        let (c, e, r) = >>=-eq-ok (canonicalize blake3 p) _ h in
        e ∙ ap ok (refuse_unless-eq (Plan-discrete c p) r),
    λ e. rw e (refuse_unless_refl (Plan-discrete p p)),
  )

  pub verify_derived-IsDerived : (p : Plan) → verify_derived blake3 p ≡ ok tt → IsDerived p
  verify_derived-IsDerived p h = canonicalize-IsDerived p p ((verify_derived_iff p).0 h)

  check_floors-All :
      (gs : List Group)
      → check_floors gs ≡ ok tt
      → All (λ g. g.replica_floor.required ≤ g.replica_floor.remaining_after) gs
  unfolding check_floors
  check_floors-All [] h = tt
  check_floors-All (g ∷ gs) h =
      let (_, e, h₁) =
        >>=-eq-ok
          (bail_if (ltb g.replica_floor.remaining_after g.replica_floor.required)
            replica_floor_broken)
          _ h in
      (ground (arith, e), check_floors-All gs h₁)

  invariants_hold-floors : (p : Plan) → invariants_hold p ≡ ok tt → check_floors p.groups ≡ ok tt
  unfolding invariants_hold
  invariants_hold-floors p h =
      let (_, _, h₁) = >>=-eq-ok (check_roots [] p.roots) _ h in
      let (_, _, h₂) =
        >>=-eq-ok (bail_if (not (is_dedup p.kind) && has_groups p.groups) groups_on_non_dedup_plan)
          _ h₁ in
      let (seen, _, h₃) = >>=-eq-ok (check_actions p p.actions nothing_seen) _ h₂ in
      let (_, _, h₄) =
        >>=-eq-ok
          (if is_organize p.kind then check_orders seen.organize_source_paths p.actions else ok tt)
          _ h₃ in
      h₄

  -- The count of the roots that stay, of every group, is at least the one that the group requires.
  pub floors_stated :
      (p : Plan)
      → verify_derived blake3 p ≡ ok tt
      → invariants_hold p ≡ ok tt
      → All (λ g. g.replica_floor.required ≤ remaining_after g) p.groups
  floors_stated p derived h =
      All-imp (λ g (d, floor). subst (λ n. g.replica_floor.required ≤ n) d.remaining_eq floor)
        p.groups
        (All-and IsDerivedGroup _ p.groups (verify_derived-IsDerived p derived).groups_derived
          (check_floors-All p.groups (invariants_hold-floors p h)))
