-- ===== src/Dedup/Totals.antt =====
-- src/core/dedup.rs: the totals of a whole run of `run_dedup`, and the members that it offers.
use backupsage.Base.{
  ◌≡◌, refl, subst, inl, inr, arith, ℕ, ◌+◌, String, Bool, ◌&&◌, Option, none, some, List, [], ◌∷◌,
  map, All, All-append, sum_by, sum_by-append, count, if◌then◌else◌, Bool-cases, Option-cases,
}
use backupsage.Base.Order.{nat_ord, int_ord, pair_ord, reverse_ord}
use backupsage.Base.Sort.{count-sort_by}
use backupsage.Coverage.{Bytes}
use backupsage.Dedup.Types.{Row, Member, Group}
use backupsage.Dedup.Markers.{Chars}
use backupsage.Dedup.Keep.{Indexed, pick_keep, member_is_actionable}
use backupsage.Dedup.Assemble.{
  Keeper, is_actionable, member_of, Tally, empty_tally, tally_member, tally, group_with, by_id,
  keep_first, keep_first_key, one_archive, assemble,
}
use backupsage.Dedup.Order.{DedupParams}
use backupsage.Dedup.Gather.{RawGroup, indexed}
use backupsage.Dedup.Gathered.{IsRaw}
use backupsage.Dedup.Run.{Totals, add_group, assemble_all}
use backupsage.Dedup.Reclaim.{reclaimable_size, assemble_reclaims}
use backupsage.Dedup.Safe.{IsSafe, assemble-IsSafe}

abbrev pub is_duplicate : Member → Bool
is_duplicate m = m.actionable

tally_member-duplicates :
    (k : Keeper) (e : Indexed) (t : Tally)
    → (tally_member k e t).duplicate_files
      ≡ t.duplicate_files + (if is_duplicate (member_of k e) then 1 else 0)
unfolding tally_member member_of is_actionable member_is_actionable
tally_member-duplicates k (i, r) t = ground arith

tally-duplicates :
    (k : Keeper) (t : Tally) (es : List Indexed)
    → (tally k t es).duplicate_files ≡ t.duplicate_files + count is_duplicate (map (member_of k) es)
unfolding tally
tally-duplicates k t [] = omega arith
tally-duplicates k t (e ∷ es) =
    omega (arith, tally-duplicates k (tally_member k e t) es, tally_member-duplicates k e t)

-- How a judged group and its counters agree.
record Agrees (g : Group) (t : Tally) : Type 0 where
  bytes : t.reclaimable ≡ g.reclaimable_bytes
  review : t.review_only ≡ g.review_only_bytes
  files : t.duplicate_files ≡ count is_duplicate g.members

some_injective : {A : Type 0} {a b : A} → some a ≡ some b → a ≡ b
some_injective e = cc

group_with-Agrees :
    (threshold : ℕ) (kind : String) (members : List Indexed) (keep : Option (Indexed × String))
    (g : Group) (t : Tally)
    → group_with threshold kind members keep ≡ some (g, t)
    → Agrees g t
unfolding keep_first
group_with-Agrees threshold kind members none g t h = cc
group_with-Agrees threshold kind members (some (keep, reason)) g t h =
    let k : Keeper = record { kind = kind; threshold = threshold; keep = keep; reason = reason } in
    let e = some_injective h in
    subst (λ (x : Group × Tally). Agrees x.0 x.1) e
      (record {
        bytes = refl;
        review = refl;
        files = omega (
          arith,
          tally-duplicates k empty_tally members,
          count-sort_by keep_first_key is_duplicate (map (member_of k) members),
        );
      })

assemble-Agrees :
    (stem_of : Bytes → Chars) (across_only : Bool) (threshold : ℕ) (kind : String)
    (members : List Indexed) (g : Group) (t : Tally)
    → assemble stem_of across_only threshold kind members ≡ some (g, t)
    → Agrees g t
unfolding assemble
assemble-Agrees stem_of across_only threshold kind members g t h =
    elim (Bool-cases (across_only && one_archive (by_id members))) [
      | inl y ↦ ground arith
      | inr n ↦
          group_with-Agrees threshold kind (by_id members) (pick_keep stem_of kind (by_id members))
            g t (ground arith)
    ]

-- A group whose actionable members may be reclaimed, and whose reclaimable bytes are theirs.
abbrev pub IsSafeGroup : List Row → ℕ → Group → Type 0
IsSafeGroup rows threshold g =
    IsSafe rows threshold g × (g.reclaimable_bytes ≡ sum_by reclaimable_size g.members)

abbrev pub reclaimable_of : Group → ℕ
reclaimable_of g = g.reclaimable_bytes

abbrev pub review_of : Group → ℕ
review_of g = g.review_only_bytes

abbrev pub duplicates_of : Group → ℕ
duplicates_of g = count is_duplicate g.members

pub record IsSummed (rows : List Row) (threshold : ℕ) (s : Totals) : Type 0 where
  pub bytes : s.reclaimable_total ≡ sum_by reclaimable_of s.groups
  pub review : s.review_only_total ≡ sum_by review_of s.groups
  pub files : s.duplicate_files ≡ sum_by duplicates_of s.groups
  pub safe : All (IsSafeGroup rows threshold) s.groups

add_group-IsSummed :
    (stem_of : Bytes → Chars) (across_only : Bool) (threshold : ℕ) (rows : List Row)
    (raw : RawGroup) (s : Totals)
    → IsRaw (indexed 0 rows) raw
    → IsSummed rows threshold s
    → IsSummed rows threshold (add_group (assemble stem_of across_only threshold raw.0 raw.1) s)
unfolding add_group
add_group-IsSummed stem_of across_only threshold rows raw s inside h =
    elim (Option-cases (assemble stem_of across_only threshold raw.0 raw.1)) [
      | inl e ↦ rw e h
      | inr ((g, t), e) ↦
          let agrees = assemble-Agrees stem_of across_only threshold raw.0 raw.1 g t e in
          let bytes = assemble_reclaims stem_of across_only threshold raw.0 raw.1 g t e in
          let safe = assemble-IsSafe stem_of across_only threshold rows raw g t inside e in
          rw e (record {
            bytes =
                omega
                  (arith, h.bytes, agrees.bytes, sum_by-append reclaimable_of s.groups (g ∷ []));
            review =
                omega (arith, h.review, agrees.review, sum_by-append review_of s.groups (g ∷ []));
            files =
                omega (arith, h.files, agrees.files, sum_by-append duplicates_of s.groups (g ∷ []));
            safe =
                All-append (IsSafeGroup rows threshold) s.groups (g ∷ []) h.safe
                  ((safe, bytes), tt);
          })
    ]

pub assemble_all-IsSummed :
    (stem_of : Bytes → Chars) (p : DedupParams) (rows : List Row) (s : Totals) (raw : List RawGroup)
    → All (IsRaw (indexed 0 rows)) raw
    → IsSummed rows p.threshold s
    → IsSummed rows p.threshold (assemble_all stem_of p s raw)
unfolding assemble_all
assemble_all-IsSummed stem_of p rows s [] inside h = h
assemble_all-IsSummed stem_of p rows s (raw ∷ rest) (one, inside) h =
    assemble_all-IsSummed stem_of p rows
      (add_group (assemble stem_of p.across_only p.threshold raw.0 raw.1) s) rest inside
      (add_group-IsSummed stem_of p.across_only p.threshold rows raw s one h)
