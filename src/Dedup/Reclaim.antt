-- ===== src/Dedup/Reclaim.antt =====
-- src/core/dedup.rs: the bytes that a judged group calls reclaimable.
use backupsage.Base.{
  ◌≡◌, ap, subst, inl, inr, arith, ℕ, ◌+◌, String, Bool, ◌&&◌, Option, none, some, List, [], ◌∷◌,
  map, sum_by, if◌then◌else◌, Bool-cases,
}
use backupsage.Base.Order.{nat_ord, int_ord, pair_ord}
use backupsage.Base.Sort.{sum_by-sort_by}
use backupsage.Coverage.{Bytes}
use backupsage.Dedup.Types.{Member, Group}
use backupsage.Dedup.Markers.{Chars}
use backupsage.Dedup.Keep.{Indexed, pick_keep, member_is_actionable}
use backupsage.Dedup.Assemble.{
  Keeper, is_actionable, member_of, Tally, empty_tally, tally_member, tally, group_with, by_id,
  keep_first, keep_first_key, one_archive, assemble,
}

-- The bytes of a member that is counted as reclaimable.
abbrev pub reclaimable_size : Member → ℕ
reclaimable_size m = if m.actionable then m.size else 0

tally_member-reclaimable :
    (k : Keeper) (e : Indexed) (t : Tally)
    → (tally_member k e t).reclaimable ≡ t.reclaimable + reclaimable_size (member_of k e)
unfolding tally_member member_of is_actionable member_is_actionable
tally_member-reclaimable k (i, r) t = ground arith

tally-reclaimable :
    (k : Keeper) (t : Tally) (es : List Indexed)
    → (tally k t es).reclaimable ≡ t.reclaimable + sum_by reclaimable_size (map (member_of k) es)
unfolding tally
tally-reclaimable k t [] = omega arith
tally-reclaimable k t (e ∷ es) =
    omega (arith, tally-reclaimable k (tally_member k e t) es, tally_member-reclaimable k e t)

some-injective : {A : Type 0} {a b : A} → some a ≡ some b → a ≡ b
some-injective e = cc

group_with-reclaims :
    (threshold : ℕ) (kind : String) (members : List Indexed) (keep : Option (Indexed × String))
    (g : Group) (t : Tally)
    → group_with threshold kind members keep ≡ some (g, t)
    → g.reclaimable_bytes ≡ sum_by reclaimable_size g.members
unfolding keep_first
group_with-reclaims threshold kind members none g t h = cc
group_with-reclaims threshold kind members (some (keep, reason)) g t h =
    let k : Keeper = record { kind = kind; threshold = threshold; keep = keep; reason = reason } in
    subst (λ (g : Group). g.reclaimable_bytes ≡ sum_by reclaimable_size g.members)
      (ap (λ (r : Group × Tally). r.0) (some-injective h))
      (omega (
        arith,
        tally-reclaimable k empty_tally members,
        sum_by-sort_by keep_first_key reclaimable_size (map (member_of k) members),
      ))

-- The reclaimable bytes of a group are the sizes of its actionable members.
pub assemble_reclaims :
    (stem_of : Bytes → Chars) (across_only : Bool) (threshold : ℕ) (kind : String)
    (members : List Indexed) (g : Group) (t : Tally)
    → assemble stem_of across_only threshold kind members ≡ some (g, t)
    → g.reclaimable_bytes ≡ sum_by reclaimable_size g.members
unfolding assemble
assemble_reclaims stem_of across_only threshold kind members g t h =
    elim (Bool-cases (across_only && one_archive (by_id members))) [
      | inl y ↦ ground arith
      | inr n ↦
          group_with-reclaims threshold kind (by_id members)
            (pick_keep stem_of kind (by_id members)) g t (ground arith)
    ]
