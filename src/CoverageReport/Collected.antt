-- ===== src/CoverageReport/Collected.antt =====
-- src/core/coverage_report.rs: what the loops over the engine's lists collect.
use text.Mathlib.Text.{◌==◌ as str_eq}
use backupsage.Base.{
  ◌≡◌, refl, sym, ap, subst, ◌∙◌, arith, ◌+◌, ◌≤◌, Bool, true, false, Option, none, some, List, [],
  ◌∷◌, count, length, All, if◌then◌else◌, Result, ok, >>=-eq-ok, ok-injective,
}
use backupsage.Base.Order.{int_ord, nat_ord, pair_ord, list_ord}
use backupsage.Base.Sort.{All-sort_by}
use backupsage.Coverage.{RowRef, ContentGroup}
use backupsage.Floors.{Verdict, GroupFloor, GroupExclusion, FloorReport}
use backupsage.Floors
use backupsage.CoverageReport.Document.{ReportGroup}
use backupsage.CoverageReport.Words.{verdict_str}
use backupsage.CoverageReport.Filter.{ReportError, Glob, PathFilter, is_active}
use backupsage.CoverageReport.Report.{
  rows_of, in_report, grouped_by, engine_group, report_group, push_if, collect, report_groups,
}
use backupsage.CoverageReport.Run.{with_verdict}

abbrev pub open_filter : PathFilter
open_filter = record { exts = []; glob = none; kind = none }

push_if-narrows :
    {B : Type 0} (test : B → Bool) (wanted : Bool) (first : Result ReportError B)
    (rest : Result ReportError (List B)) (y : B) (ys zs : List B)
    → first ≡ ok y
    → ((ys' : List B) → rest ≡ ok ys' → count test ys' ≤ count test zs)
    → push_if wanted first rest ≡ ok ys
    → count test ys ≤ count test (y ∷ zs)
push_if-narrows test false first rest y ys zs e later h = omega (arith, later ys h)
push_if-narrows test true first rest y ys zs e later h =
    let (y', e', h₁) = >>=-eq-ok first _ h in
    let (ys', r, h₂) = >>=-eq-ok rest _ h₁ in
    let same : y' ≡ y = ok-injective (sym e' ∙ e) in
    rw (← ok-injective h₂, same) (omega (arith, later ys' r))

push_if-All :
    {B : Type 0} (P : B → Type 0) (wanted : Bool) (first : Result ReportError B)
    (rest : Result ReportError (List B)) (ys : List B)
    → ((y : B) → first ≡ ok y → P y)
    → ((ys' : List B) → rest ≡ ok ys' → All P ys')
    → push_if wanted first rest ≡ ok ys
    → All P ys
push_if-All P false first rest ys head later h = later ys h
push_if-All P true first rest ys head later h =
    let (y, e, h₁) = >>=-eq-ok first _ h in
    let (ys', r, h₂) = >>=-eq-ok rest _ h₁ in
    subst (All P) (ok-injective h₂) (head y e, later ys' r)

module _ {A B : Type 0} (glob : Glob) (f : PathFilter) (rows : A → List RowRef)
    (build : A → Result ReportError B) where
  pub collect-narrows :
      (xs : List A) (ys zs : List B)
      → collect glob f rows build xs ≡ ok ys
      → collect glob open_filter rows build xs ≡ ok zs
      → (test : B → Bool) → count test ys ≤ count test zs
  unfolding collect in_report is_active
  collect-narrows [] ys zs h k test = rw (← ok-injective h) (omega arith)
  collect-narrows (x ∷ xs) ys zs h k test =
      let (y, e, k₁) = >>=-eq-ok (build x) _ k in
      let (zs', e', k₂) = >>=-eq-ok (collect glob open_filter rows build xs) _ k₁ in
      let (wanted, w, h₁) = >>=-eq-ok (in_report glob f (rows x)) _ h in
      rw (← ok-injective k₂) (
        push_if-narrows test wanted (build x) (collect glob f rows build xs) y ys zs' e
          (λ ys' r. collect-narrows xs ys' zs' r e' test) h₁)

  -- What every built value satisfies.
  collect-All :
      (P : B → Type 0)
      → ((x : A) (y : B) → build x ≡ ok y → P y)
      → (xs : List A) (ys : List B) → collect glob f rows build xs ≡ ok ys
      → All P ys
  unfolding collect
  collect-All P holds [] ys h = subst (All P) (ok-injective h) tt
  collect-All P holds (x ∷ xs) ys h =
      let (wanted, w, h₁) = >>=-eq-ok (in_report glob f (rows x)) _ h in
      push_if-All P wanted (build x) (collect glob f rows build xs) ys (holds x)
        (λ ys' r. collect-All P holds xs ys' r) h₁

-- Each group has one of the three verdicts.
abbrev pub HasVerdict : ReportGroup → Type 0
HasVerdict g = (v : Verdict) × (g.verdict ≡ verdict_str v)

grouped_by-HasVerdict :
    (g : GroupFloor) (engine : Option ContentGroup) (r : ReportGroup)
    → grouped_by g engine ≡ ok r
    → HasVerdict r
unfolding report_group
grouped_by-HasVerdict g none r h = cc
grouped_by-HasVerdict g (some engine) r h =
    (g.verdict, sym (ap (λ (r : ReportGroup). r.verdict) (ok-injective h)))

verdict-counted :
    (v : Verdict)
    → (if str_eq (verdict_str v) "meets_floor" then 1 else 0)
        + (if str_eq (verdict_str v) "below_floor" then 1 else 0)
        + (if str_eq (verdict_str v) "inconclusive" then 1 else 0)
      ≡ 1
unfolding verdict_str
verdict-counted Floors.meets_floor = refl
verdict-counted Floors.below_floor = refl
verdict-counted Floors.inconclusive = refl

pub verdicts_total :
    (gs : List ReportGroup)
    → All HasVerdict gs
    → length gs
      ≡ with_verdict "meets_floor" gs
        + with_verdict "below_floor" gs
        + with_verdict "inconclusive" gs
verdicts_total [] h = omega arith
verdicts_total (g ∷ gs) ((v, e), h) = rw e (omega (arith, verdict-counted v, verdicts_total gs h))

pub report_groups-HasVerdict :
    (glob : Glob) (f : PathFilter) (engine : List ContentGroup) (gs : List GroupFloor)
    (r : List ReportGroup)
    → report_groups glob f engine gs ≡ ok r
    → All HasVerdict r
unfolding report_groups
report_groups-HasVerdict glob f engine gs r h =
    let (built, e, h₁) = >>=-eq-ok (collect glob f _ _ gs) _ h in
    let verdicts =
      collect-All glob f (λ (g : GroupFloor). rows_of g.copies g.aliases)
        (λ g. grouped_by g (engine_group g.content_hash engine)) HasVerdict
        (λ g y. grouped_by-HasVerdict g (engine_group g.content_hash engine) y) gs built e in
    subst (All HasVerdict) (ok-injective h₁)
      (All-sort_by (λ (g : ReportGroup). g.content_hash) HasVerdict built verdicts)
