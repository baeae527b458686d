-- ===== src/Plan/Referenced.antt =====
-- src/core/plan.rs: what `referenced_entries` collects.
use backupsage.Base.{
  ◌≡◌, refl, sym, ap, arith, true, not, Option, none, some, List, [], ◌∷◌, ◌++◌, map, flat_map, All,
  All-imp, All-append, ok, >>=-eq-ok, ok-injective, bail_if, Bool-cases, inl, inr,
}
use backupsage.Base.Order.{eqb, eqb_refl, eqb_iff, nat_ord, int_ord, pair_ord}
use backupsage.Base.SortedMap.{lookup, lookup-upsert}
use backupsage.Plan.Types.{SourceRef, SourceRef-discrete, Action, GroupMember, Group, Plan}
use backupsage.Plan.Hex.{contradictory_facts}
use backupsage.Plan.Ids.{entry_key}
use backupsage.Plan.Canonical.{source_of}
use backupsage.Plan.Verify.{
  Entries, agree, agrees_with, insert_entry, insert_option, entries_of_actions, entries_of_members,
  entries_of_groups, referenced_entries,
}

abbrev sources_of_op : Option SourceRef → List SourceRef
sources_of_op none = []
sources_of_op (some s) = s ∷ []

abbrev pub sources_of_group : Group → List SourceRef
sources_of_group g = g.keeper.entry ∷ map (λ m. m.entry) g.members

-- Every entry that a plan names: what its actions read, its keepers and their members.
abbrev pub references : Plan → List SourceRef
references p =
    flat_map (λ a. sources_of_op (source_of a.op)) p.actions ++ flat_map sources_of_group p.groups

abbrev pub Holds : Entries → SourceRef → Type 0
Holds m s = lookup (entry_key s) m ≡ some s

-- The second map has all that the first one has, and the references.
abbrev Grows : Entries → Entries → List SourceRef → Type 0
Grows m n refs = ((s : SourceRef) → Holds m s → Holds n s) × All (Holds n) refs

Grows-join :
    (m n o : Entries) (xs ys : List SourceRef) → Grows m n xs → Grows n o ys → Grows m o (xs ++ ys)
Grows-join m n o xs ys (f, h) (g, k) =
    (λ s e. g s (f s e), All-append (Holds o) xs ys (All-imp g xs h) k)

agree-eq : {s t : SourceRef} (d : Dec (s ≡ t)) → agree d ≡ true → s ≡ t
agree-eq (yes e) h = e
agree-eq (no n) h = cc

-- What the map has at the key of an entry, if anything, is the entry.
agrees_with-eq :
    (s t : SourceRef) (o : Option SourceRef) → agrees_with s o ≡ true → o ≡ some t → t ≡ s
agrees_with-eq s t none h e = cc
agrees_with-eq s t (some u) h e = let same = agree-eq (SourceRef-discrete u s) h in cc

insert_entry-Grows : (s : SourceRef) (m n : Entries) → insert_entry s m ≡ ok n → Grows m n (s ∷ [])
unfolding insert_entry
insert_entry-Grows s m n h =
    let (_, agreed, h₁) =
      >>=-eq-ok (bail_if (not (agrees_with s (lookup (entry_key s) m))) contradictory_facts) _ h in
    let same = ok-injective h₁ in
    rw (← same) (
      λ t e. elim (Bool-cases (eqb (entry_key t) (entry_key s))) [
        | inl k ↦
            let found : lookup (entry_key s) m ≡ some t =
              rw (← (eqb_iff (entry_key t) (entry_key s)).0 k) e in
            let is_same = agrees_with-eq s t (lookup (entry_key s) m) (ground arith) found in
            rw (lookup-upsert (entry_key s) (entry_key t) (λ _. s) m, k) (ap some (sym is_same))
        | inr k ↦ rw (lookup-upsert (entry_key s) (entry_key t) (λ _. s) m, k) e
      ],
      (rw (lookup-upsert (entry_key s) (entry_key s) (λ _. s) m, eqb_refl (entry_key s)) refl, tt),
    )

insert_option-Grows :
    (o : Option SourceRef) (m n : Entries) → insert_option o m ≡ ok n → Grows m n (sources_of_op o)
insert_option-Grows none m n h = rw (← ok-injective h) (λ t e. e, tt)
insert_option-Grows (some s) m n h = insert_entry-Grows s m n h

entries_of_actions-Grows :
    (actions : List Action) (m n : Entries)
    → entries_of_actions actions m ≡ ok n
    → Grows m n (flat_map (λ a. sources_of_op (source_of a.op)) actions)
unfolding entries_of_actions
entries_of_actions-Grows [] m n h = rw (← ok-injective h) (λ t e. e, tt)
entries_of_actions-Grows (a ∷ actions) m n h =
    let (next, e, h₁) = >>=-eq-ok (insert_option (source_of a.op) m) _ h in
    Grows-join m next n _ _ (insert_option-Grows (source_of a.op) m next e)
      (entries_of_actions-Grows actions next n h₁)

entries_of_members-Grows :
    (members : List GroupMember) (m n : Entries)
    → entries_of_members members m ≡ ok n
    → Grows m n (map (λ x. x.entry) members)
unfolding entries_of_members
entries_of_members-Grows [] m n h = rw (← ok-injective h) (λ t e. e, tt)
entries_of_members-Grows (x ∷ members) m n h =
    let (next, e, h₁) = >>=-eq-ok (insert_entry x.entry m) _ h in
    Grows-join m next n (x.entry ∷ []) _ (insert_entry-Grows x.entry m next e)
      (entries_of_members-Grows members next n h₁)

entries_of_groups-Grows :
    (groups : List Group) (m n : Entries)
    → entries_of_groups groups m ≡ ok n
    → Grows m n (flat_map sources_of_group groups)
unfolding entries_of_groups
entries_of_groups-Grows [] m n h = rw (← ok-injective h) (λ t e. e, tt)
entries_of_groups-Grows (g ∷ groups) m n h =
    let (kept, e, h₁) = >>=-eq-ok (insert_entry g.keeper.entry m) _ h in
    let (filled, f, h₂) = >>=-eq-ok (entries_of_members g.members kept) _ h₁ in
    Grows-join m filled n (sources_of_group g) _
      (Grows-join m kept filled (g.keeper.entry ∷ []) _ (insert_entry-Grows g.keeper.entry m kept e)
        (entries_of_members-Grows g.members kept filled f))
      (entries_of_groups-Grows groups filled n h₂)

pub referenced_entries-All :
    (p : Plan) (n : Entries) → referenced_entries p ≡ ok n → All (Holds n) (references p)
unfolding referenced_entries
referenced_entries-All p n h =
    let (m, e, h₁) = >>=-eq-ok (entries_of_actions p.actions []) _ h in
    (Grows-join [] m n _ _ (entries_of_actions-Grows p.actions [] m e)
      (entries_of_groups-Grows p.groups m n h₁)).1
