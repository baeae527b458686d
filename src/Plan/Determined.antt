-- ===== src/Plan/Determined.antt =====
-- src/core/plan.rs: what a plan that `verify_derived` accepts is determined by.
use backupsage.Base.{◌≡◌, refl, sym, ap, ◌∙◌, List, [], ◌∷◌, map, All, ok, ok-injective}
use backupsage.Coverage.{Bytes}
use backupsage.Plan.Types.{Op, mkdir, move, extract, Action, Group, Summary, Plan}
use backupsage.Plan.Ids.{compute_action_id, compute_group_id, group_elements}
use backupsage.Plan.Canonical.{
  remaining_after, finish_group, derive_slot, recompute_summary, verify_derived,
}
use backupsage.Plan.Derived.{IsDerivedGroup, IsSlotted, IsDerivedAction, verify_derived-IsDerived}

-- A group without its id and its count of what stays.
abbrev bare_group : Group → Group
bare_group g = record g {
  group_id = [];
  replica_floor = record (g.replica_floor) { remaining_after = 0 };
}

-- An operation without its slot.
abbrev bare_op : Op → Op
bare_op (mkdir dest) = mkdir dest
bare_op (move s dest c) = move s dest c
bare_op (extract s dest c) = extract s dest c
bare_op (Op.quarantine s dest g t) = Op.quarantine s dest g []

-- An action without its id.
abbrev bare_action : Action → Action
bare_action a = record a { action_id = []; op = bare_op a.op }

abbrev no_summary : Summary
no_summary = record {
  actions_total = 0;
  actions_by_op = [];
  bytes_affected = 0;
  groups_total = 0;
  excluded_total = 0;
  excluded_bytes = 0;
  roots_written = [];
}

-- A plan without the fields that are derived: every group id, every count of what stays, every
-- slot, every action id and the summary are blank.
abbrev pub facts : Plan → Plan
facts p = record p {
  actions = map bare_action p.actions;
  groups = map bare_group p.groups;
  summary = no_summary;
}

module _ (blake3 : Bytes → Bytes) where
  refilled_group : (g : Group) → IsDerivedGroup blake3 g → g ≡ finish_group blake3 (bare_group g)
  unfolding finish_group compute_group_id group_elements remaining_after
  refilled_group g d = λ i. record g {
    group_id = d.id_eq i;
    replica_floor = record (g.replica_floor) { remaining_after = d.remaining_eq i };
  }

  same_groups :
      (gs hs : List Group)
      → All (IsDerivedGroup blake3) gs
      → All (IsDerivedGroup blake3) hs
      → map bare_group gs ≡ map bare_group hs
      → gs ≡ hs
  same_groups [] [] d d' e = refl
  same_groups [] (h ∷ hs) d d' e = cc
  same_groups (g ∷ gs) [] d d' e = cc
  same_groups (g ∷ gs) (h ∷ hs) (d, ds) (d', ds') e =
      let heads : bare_group g ≡ bare_group h = cc e in
      let tails : map bare_group gs ≡ map bare_group hs = cc e in
      let one : g ≡ h =
        refilled_group g d ∙ ap (finish_group blake3) heads ∙ sym (refilled_group h d') in
      let more = same_groups gs hs ds ds' tails in λ i. one i ∷ more i

  refilled_op : (op : Op) → IsSlotted blake3 op → op ≡ derive_slot blake3 (bare_op op)
  unfolding derive_slot
  refilled_op (mkdir dest) h = refl
  refilled_op (move s dest c) h = refl
  refilled_op (extract s dest c) h = refl
  refilled_op (Op.quarantine s dest g t) h = ap (Op.quarantine s dest g) h

  same_action :
      (a b : Action)
      → IsDerivedAction blake3 a
      → IsDerivedAction blake3 b
      → bare_action a ≡ bare_action b
      → a ≡ b
  same_action a b d d' e =
      let ops : a.op ≡ b.op =
        refilled_op a.op d.slotted
        ∙ ap (λ (x : Action). derive_slot blake3 x.op) e
        ∙ sym (refilled_op b.op d'.slotted) in
      let ids = ok-injective (sym d.id_eq ∙ ap (compute_action_id blake3) ops ∙ d'.id_eq) in
      λ i. record { action_id = ids i; ordinal = (e i).ordinal; op = ops i }

  same_actions :
      (xs ys : List Action)
      → All (IsDerivedAction blake3) xs
      → All (IsDerivedAction blake3) ys
      → map bare_action xs ≡ map bare_action ys
      → xs ≡ ys
  same_actions [] [] d d' e = refl
  same_actions [] (y ∷ ys) d d' e = cc
  same_actions (x ∷ xs) [] d d' e = cc
  same_actions (x ∷ xs) (y ∷ ys) (d, ds) (d', ds') e =
      let heads : bare_action x ≡ bare_action y = cc e in
      let tails : map bare_action xs ≡ map bare_action ys = cc e in
      let one = same_action x y d d' heads in
      let more = same_actions xs ys ds ds' tails in λ i. one i ∷ more i

  -- Two plans that `verify_derived` accepts, and that agree in all but the group ids, the counts of
  -- what stays of a group, the slots, the action ids and the summary, agree in these too.
  pub verify_derived_determines :
      (p q : Plan)
      → verify_derived blake3 p ≡ ok tt
      → verify_derived blake3 q ≡ ok tt
      → facts p ≡ facts q
      → p ≡ q
  unfolding recompute_summary
  verify_derived_determines p q h k e =
      let d = verify_derived-IsDerived blake3 p h in
      let d' = verify_derived-IsDerived blake3 q k in
      let actions =
        same_actions p.actions q.actions d.actions_derived d'.actions_derived
          (ap (λ (x : Plan). x.actions) e) in
      let groups =
        same_groups p.groups q.groups d.groups_derived d'.groups_derived
          (ap (λ (x : Plan). x.groups) e) in
      let filled : recompute_summary p ≡ recompute_summary q = λ i.
        recompute_summary
          (record p { actions = actions i; groups = groups i; excluded = (e i).excluded }) in
      let summary = d.summary_derived ∙ filled ∙ sym d'.summary_derived in
      λ i. record (e i) { actions = actions i; groups = groups i; summary = summary i }
