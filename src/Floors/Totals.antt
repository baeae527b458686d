-- ===== src/Floors/Totals.antt =====
-- src/core/floors.rs: the totals of the report.
use backupsage.Base.{
  ℕ, suc, ◌+◌, ◌≡◌, refl, bail_if, ◌==◌, ltb, leb, Bool, not, ◌&&◌, if◌then◌else◌, Option, none,
  some, List, [], ◌∷◌, count, length, ok, >>=-eq-ok, ok-injective, arith, subst, traverse, sym, ap,
  All,
}
use backupsage.Base.Int.{ℤ}
use backupsage.Base.Order.{int_ord}
use backupsage.Coverage.{Coverage, ContentGroup}
use backupsage.Floors.Types.{
  SourceStatus, FloorParams, Verdict, meets_floor, below_floor, inconclusive, FloorReport,
  GroupFloor, GroupExclusionReason, floor_is_zero,
}
use backupsage.Floors.Evaluate.{
  Designations, no_tally, tally, verdict_of, judge_group, exclude_group, judge_by, judge, Judgement,
  in_scope, left_out, out_of_scope, floors_of, exclusions_of, designate, floor_copy, floor_source,
  summarize, evaluate, same_verdict,
}

count_verdicts :
    (fs : List GroupFloor)
    → count (λ g. same_verdict g.verdict meets_floor) fs
        + count (λ g. same_verdict g.verdict below_floor) fs
        + count (λ g. same_verdict g.verdict inconclusive) fs
      ≡ length fs
count_verdicts [] = refl
count_verdicts (f ∷ fs) = one _ _ _ _ f.verdict (count_verdicts fs)
  where
    one :
        (a b c n : ℕ) (v : Verdict)
        → a + b + c ≡ n
        → ((if same_verdict v meets_floor then 1 else 0) + a)
            + ((if same_verdict v below_floor then 1 else 0) + b)
            + ((if same_verdict v inconclusive then 1 else 0) + c)
          ≡ suc n
    one a b c n meets_floor h = omega arith
    one a b c n below_floor h = omega arith
    one a b c n inconclusive h = omega arith

length-judged :
    (js : List Judgement) → length (floors_of js) + length (exclusions_of js) ≡ length js
length-judged [] = refl
length-judged (in_scope f ∷ js) = omega (arith, length-judged js)
length-judged (left_out e ∷ js) = omega (arith, length-judged js)

length-traverse :
    (d : Designations) (p : FloorParams) (gs : List ContentGroup) {js : List Judgement}
    → traverse (judge d p) gs ≡ ok js
    → length js ≡ length gs
unfolding traverse
length-traverse d p [] e = ap length (sym (ok-injective e))
length-traverse d p (g ∷ gs) e =
    let (j, _, e') = >>=-eq-ok (judge d p g) _ e in
    let (js, rest, done) = >>=-eq-ok (traverse (judge d p) gs) _ e' in
    omega (arith, ap length (ok-injective done), length-traverse d p gs rest)

-- The verdict of a group is the one that its counts give.
abbrev IsJudged : ℕ → GroupFloor → Type 0
IsJudged n f =
    f.verdict
    ≡ verdict_of n (record {
      trusted = f.trusted_replicas;
      untrusted = f.untrusted_replicas;
      unknown_sources = f.unknown_sources;
      protected = f.protected_replicas;
    })

judge_group-IsJudged :
    (d : Designations) (p : FloorParams) (g : ContentGroup) (f : GroupFloor)
    → judge_group d p g ≡ ok f
    → IsJudged p.min_copies f
unfolding judge_group
judge_group-IsJudged d p g f e =
    let (t, _, e') = >>=-eq-ok (tally d no_tally g.presence) _ e in
    let (copies, _, done) = >>=-eq-ok (traverse (floor_copy d) g.copies) _ e' in
    subst (IsJudged p.min_copies) (ok-injective done) refl

abbrev IsJudgedIn : ℕ → Judgement → Type 0
IsJudgedIn n (in_scope f) = IsJudged n f
IsJudgedIn n (left_out e) = Unit

judge_by-IsJudged :
    (o : Option GroupExclusionReason) (d : Designations) (p : FloorParams) (g : ContentGroup)
    (j : Judgement)
    → judge_by o d p g ≡ ok j
    → IsJudgedIn p.min_copies j
unfolding judge_by
judge_by-IsJudged none d p g j e =
    let (f, judged, done) = >>=-eq-ok (judge_group d p g) _ e in
    subst (IsJudgedIn p.min_copies) (ok-injective done) (judge_group-IsJudged d p g f judged)
judge_by-IsJudged (some reason) d p g j e =
    let (x, _, done) = >>=-eq-ok (exclude_group d reason g) _ e in
    subst (IsJudgedIn p.min_copies) (ok-injective done) tt

cons-IsJudged :
    (n : ℕ) (j : Judgement) (js : List Judgement)
    → IsJudgedIn n j
    → All (IsJudged n) (floors_of js)
    → All (IsJudged n) (floors_of (j ∷ js))
cons-IsJudged n (in_scope f) js h hs = (h, hs)
cons-IsJudged n (left_out e) js h hs = hs

traverse-IsJudged :
    (d : Designations) (p : FloorParams) (gs : List ContentGroup) (js : List Judgement)
    → traverse (judge d p) gs ≡ ok js
    → All (IsJudged p.min_copies) (floors_of js)
unfolding traverse
traverse-IsJudged d p [] js e =
    subst (λ js. All (IsJudged p.min_copies) (floors_of js)) (ok-injective e) tt
traverse-IsJudged d p (g ∷ gs) js e =
    let (j, one, e') = >>=-eq-ok (judge d p g) _ e in
    let (rest, more, done) = >>=-eq-ok (traverse (judge d p) gs) _ e' in
    subst (λ js. All (IsJudged p.min_copies) (floors_of js)) (ok-injective done)
      (cons-IsJudged p.min_copies j rest (judge_by-IsJudged (out_of_scope p g.size) d p g j one)
        (traverse-IsJudged d p gs rest more))

-- Enough trusted copies; too few, with a source that might have more; too few, with none.
abbrev pub has_enough : ℕ → GroupFloor → Bool
has_enough n f = leb n f.trusted_replicas

abbrev pub may_have_enough : ℕ → GroupFloor → Bool
may_have_enough n f = ltb f.trusted_replicas n && not (f.unknown_sources == 0)

abbrev pub lacks_copies : ℕ → GroupFloor → Bool
lacks_copies n f = ltb f.trusted_replicas n && f.unknown_sources == 0

count_judged :
    (n : ℕ) (fs : List GroupFloor)
    → All (IsJudged n) fs
    → (count (λ g. same_verdict g.verdict meets_floor) fs ≡ count (has_enough n) fs)
      × (count (λ g. same_verdict g.verdict below_floor) fs ≡ count (lacks_copies n) fs)
      × (count (λ g. same_verdict g.verdict inconclusive) fs ≡ count (may_have_enough n) fs)
unfolding verdict_of
count_judged n [] h = (refl, refl, refl)
count_judged n (f ∷ fs) (h, hs) =
    let (a, b, c) = count_judged n fs hs in
    (ground (arith, h, a), ground (arith, h, b), ground (arith, h, c))

-- The totals of a report account for every content group: each is in scope or excluded, and of
-- those in scope as many meet the floor as have the wanted number of trusted copies, as many are
-- below it as have fewer and no unknown source, and the verdict is open for as many as have fewer
-- and an unknown source.
pub summary_totals :
    (c : Coverage) (statuses : List (ℤ × SourceStatus)) (protected : List ℤ) (p : FloorParams)
    (r : FloorReport)
    → evaluate c statuses protected p ≡ ok r
    → (r.summary.meets ≡ count (has_enough p.min_copies) r.groups)
      × (r.summary.below ≡ count (lacks_copies p.min_copies) r.groups)
      × (r.summary.unclear ≡ count (may_have_enough p.min_copies) r.groups)
      × (r.summary.meets + r.summary.below + r.summary.unclear ≡ r.summary.groups)
      × (r.summary.groups + r.summary.excluded_groups ≡ length c.groups)
      × (r.summary.groups ≡ length r.groups)
      × (r.summary.excluded_groups ≡ length r.excluded_groups)
unfolding evaluate summarize
summary_totals c statuses protected p r e =
    let (_, _, e₁) = >>=-eq-ok (bail_if (p.min_copies == 0) floor_is_zero) _ e in
    let (d, _, e₂) = >>=-eq-ok (designate c.sources statuses protected) _ e₁ in
    let (js, judged, e₃) = >>=-eq-ok (traverse (judge d p) c.groups) _ e₂ in
    let (_, _, done) = >>=-eq-ok (traverse (floor_source d) d.labels) _ e₃ in
    let n = p.min_copies in
    let (meet, lack, open_yet) =
      count_judged n (floors_of js) (traverse-IsJudged d p c.groups js judged) in
    subst
      (λ (q : FloorReport).
        (q.summary.meets ≡ count (has_enough n) q.groups)
        × (q.summary.below ≡ count (lacks_copies n) q.groups)
        × (q.summary.unclear ≡ count (may_have_enough n) q.groups)
        × (q.summary.meets + q.summary.below + q.summary.unclear ≡ q.summary.groups)
        × (q.summary.groups + q.summary.excluded_groups ≡ length c.groups)
        × (q.summary.groups ≡ length q.groups)
        × (q.summary.excluded_groups ≡ length q.excluded_groups))
      (ok-injective done)
      (
        meet,
        lack,
        open_yet,
        count_verdicts (floors_of js),
        omega (arith, length-judged js, length-traverse d p c.groups judged),
        refl,
        refl,
      )
