-- ===== src/CoverageReport/Resolved.antt =====
-- src/core/coverage_report.rs: what `resolve` makes of the values that name sources.
use backupsage.Base.{
  ◌≡◌, refl, sym, ap, subst, ◌∙◌, arith, ◌≤◌, false, List, [], ◌∷◌, ◌++◌, append-nil, append_assoc,
  map, any, count, count-append, ok, >>=-eq-ok, ok-injective, bail_if, Bool-cases, inl, inr,
}
use backupsage.Base.Int.{ℤ}
use backupsage.Base.Order.{eqb, eqb_iff, int_ord}
use backupsage.Base.Sort.{count-sort_by}
use backupsage.Coverage.{Bytes}
use backupsage.CoverageReport
use backupsage.CoverageInput.{RegistrySource}

abbrev AtMostOnce : List ℤ → Type 0
AtMostOnce ids = (i : ℤ) → count (eqb i) ids ≤ 1

count-none : (i : ℤ) (ids : List ℤ) → any (eqb i) ids ≡ false → count (eqb i) ids ≡ 0
count-none i [] h = refl
count-none i (j ∷ ids) h = ground (arith, h, count-none i ids)

added_once :
    (ids : List ℤ) (one : ℤ)
    → any (eqb one) ids ≡ false
    → AtMostOnce ids
    → AtMostOnce (ids ++ one ∷ [])
added_once ids one fresh once i = elim (Bool-cases (eqb i one)) [
  | inl e ↦
      let none_yet : count (eqb i) ids ≡ 0 = rw ((eqb_iff i one).0 e) (count-none one ids fresh) in
      rw (count-append (eqb i) ids (one ∷ []), e) (omega (arith, none_yet))
  | inr e ↦ rw (count-append (eqb i) ids (one ∷ []), e) (omega (arith, once i))
]

add_found-eq-ok :
    (ids found added : List ℤ)
    → CoverageReport.add_found ids found ≡ ok added
    → AtMostOnce ids
    → (one : ℤ) × (found ≡ one ∷ []) × (added ≡ ids ++ one ∷ []) × AtMostOnce added
unfolding CoverageReport.add_found
add_found-eq-ok ids [] added h once = cc
add_found-eq-ok ids (one ∷ []) added h once =
    let (_, fresh, h₁) = >>=-eq-ok (bail_if (any (eqb one) ids) CoverageReport.named_twice) _ h in
    let same = sym (ok-injective h₁) in
    (one, refl, same, subst AtMostOnce (sym same) (added_once ids one (ground (arith, fresh)) once))
add_found-eq-ok ids (one ∷ other ∷ more) added h once = cc

module _ (registry : List RegistrySource) where
  abbrev Names : List Bytes → List ℤ → Type 0
  Names wanted chosen = map (CoverageReport.ids_named registry) wanted ≡ map (λ i. i ∷ []) chosen

  resolve_from-Names :
      (ids : List ℤ) (wanted : List Bytes) (result : List ℤ)
      → CoverageReport.resolve_from registry ids wanted ≡ ok result
      → AtMostOnce ids
      → (chosen : List ℤ) × Names wanted chosen × (result ≡ ids ++ chosen) × AtMostOnce result
  unfolding CoverageReport.resolve_from
  resolve_from-Names ids [] result h once =
      let same = ok-injective h in
      ([], refl, sym same ∙ sym (append-nil ids), subst AtMostOnce same once)
  resolve_from-Names ids (w ∷ wanted) result h once =
      let (added, e, h₁) =
        >>=-eq-ok (CoverageReport.add_found ids (CoverageReport.ids_named registry w)) _ h in
      let (one, found, is_added, still) =
        add_found-eq-ok ids (CoverageReport.ids_named registry w) added e once in
      let (chosen, names, whole, final) = resolve_from-Names added wanted result h₁ still in
      (
        one ∷ chosen,
        rw (found, names) refl,
        whole ∙ ap (λ l. l ++ chosen) is_added ∙ append_assoc ids (one ∷ []) chosen,
        final,
      )

  -- When `resolve` succeeds, each value names exactly one source of the registry, and the result has
  -- the ids of these sources, sorted, and none of them twice.
  pub resolve-Names :
      (wanted : List Bytes) (ids : List ℤ)
      → CoverageReport.resolve registry wanted ≡ ok ids
      → (chosen : List ℤ) × (map (CoverageReport.ids_named registry) wanted
          ≡ map (λ i. i ∷ []) chosen)
        × (ids ≡ CoverageReport.sort_ids chosen)
        × ((i : ℤ) → count (eqb i) ids ≤ 1)
  unfolding CoverageReport.resolve CoverageReport.sort_ids int_ord
  resolve-Names wanted ids h =
      let (found, e, h₁) = >>=-eq-ok (CoverageReport.resolve_from registry [] wanted) _ h in
      let (chosen, names, whole, once) = resolve_from-Names [] wanted found e (λ i. omega arith) in
      let sorted = sym (ok-injective h₁) in
      (
        chosen,
        names,
        sorted ∙ ap CoverageReport.sort_ids whole,
        λ i. rw (sorted, count-sort_by {K = ℤ} (λ (j : ℤ). j) (eqb i) found) (once i),
      )
