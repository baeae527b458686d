-- ===== src/Coverage/Presences.antt =====
-- The presence of each group in each source, as the described one.
use backupsage.Base.{
  ℕ, ◌≡◌, refl, sym, ap, ◌∙◌, Option, none, some, List, [], ◌∷◌, ◌++◌, map, All, All-imp, All-map,
  flat_map, arith, if◌then◌else◌, ok, >>=-eq-ok, ok-injective, subst, append_assoc, append-nil,
}
use backupsage.Base.Int.{ℤ}
use backupsage.Base.Order.{IsSorted, nat_ord, int_ord, list_ord}
use backupsage.Base.SortedMap.{lookup, keys, lookup-All}
use backupsage.Coverage.Types.{
  Bytes, CoverageSource, RowRef, unknown, source_unreachable, SourcePresence, Coverage,
}
use backupsage.Coverage.Rows.{UnknownRows, could_match}
use backupsage.Coverage.Scan.{Building, Progress, scan_source, scan_sources}
use backupsage.Coverage.Grouping.{
  presence_in, is_unreachable, presences, finish, finish_group, agreed_size, check_distinct,
  in_id_order, no_progress, group,
}
use backupsage.Coverage.Described.{copy_list, described_by_copies, described_presence}
use backupsage.Coverage.Copies.{copies_at, in_building, extend, extend-append}
use backupsage.Coverage.Distinct.{source_ids, in_id_order-IsSorted, picked-All}
use backupsage.Coverage.Scanned.{
  contributed, Counts, scanned, scan_source-ok, scanned-Scanned, scanned-IsSorted,
}

scan_all_sources : List CoverageSource → Progress → Progress
scan_all_sources [] before = before
scan_all_sources (s ∷ sources) before = scan_all_sources sources (scanned s before)

scan_sources-ok :
    (sources : List CoverageSource) (before : Progress) {after : Progress}
    → scan_sources sources before ≡ ok after
    → after ≡ scan_all_sources sources before
unfolding scan_sources scan_all_sources
scan_sources-ok [] before e = ok-injective (sym e)
scan_sources-ok (s ∷ sources) before e =
    let (next, first, rest) = >>=-eq-ok (scan_source s before) (scan_sources sources) e in
    scan_sources-ok sources next rest
    ∙ ap (scan_all_sources sources) (scan_source-ok s before first)

-- The collected rows of each source, in order.
abbrev AllCounts : List CoverageSource → List UnknownRows → Type 0
AllCounts [] [] = Unit
AllCounts [] (u ∷ us) = ⊥
AllCounts (s ∷ ss) [] = ⊥
AllCounts (s ∷ ss) (u ∷ us) = Counts u s × AllCounts ss us

record Collected (sources : List CoverageSource) (before after : Progress) : Type 0 where
  rows : List UnknownRows
  counts : AllCounts sources rows
  pushed : after.unknown_rows ≡ before.unknown_rows ++ rows
  copies :
      (hash : Bytes) (at : ℤ)
      → copies_at hash at after.groups
        ≡ extend (copies_at hash at before.groups) (flat_map (contributed hash at) sources)

scan_all_sources-Collected :
    (sources : List CoverageSource) (before : Progress)
    → Collected sources before (scan_all_sources sources before)
unfolding scan_all_sources
scan_all_sources-Collected [] before = record {
  rows = [];
  counts = tt;
  pushed = sym (append-nil before.unknown_rows);
  copies = λ hash at. refl;
}
scan_all_sources-Collected (s ∷ sources) before =
    let first = scanned-Scanned s before in
    let rest = scan_all_sources-Collected sources (scanned s before) in
    record {
      rows = first.rows ∷ rest.rows;
      counts = (first.counts, rest.counts);
      pushed =
          rest.pushed
          ∙ ap (λ us. us ++ rest.rows) first.pushed
          ∙ append_assoc before.unknown_rows (first.rows ∷ []) rest.rows;
      copies = λ hash at.
          rest.copies hash at
          ∙ ap (λ o. extend o (flat_map (contributed hash at) sources)) (first.copies hash at)
          ∙ extend-append (copies_at hash at before.groups) (contributed hash at s) _;
    }

scan_all_sources-IsSorted :
    (sources : List CoverageSource) (before : Progress)
    → IsSorted (keys before.groups)
    → IsSorted (keys (scan_all_sources sources before).groups)
unfolding scan_all_sources
scan_all_sources-IsSorted [] before k = k
scan_all_sources-IsSorted (s ∷ sources) before k =
    scan_all_sources-IsSorted sources (scanned s before) (scanned-IsSorted s before k)

-- One source's presence, from what was collected about it.
presence_in-described :
    (s : CoverageSource) (u : UnknownRows) (b : Building) (size : Option ℕ) (copies : List RowRef)
    (n : ℕ)
    → lookup s.source_id b.copies ≡ extend none copies
    → could_match u size ≡ n
    → presence_in s u b size ≡ (
        if is_unreachable s.evidence
        then unknown source_unreachable
        else described_by_copies copies s.evidence n)
unfolding presence_in
presence_in-described s u b size [] n e k = ground arith
presence_in-described s u b size (c ∷ cs) n e k = ground arith

copies_of_entry :
    (ordered : List CoverageSource) (hash : Bytes) (b : Building)
    → IsSorted (source_ids ordered)
    → lookup hash (scan_all_sources ordered no_progress).groups ≡ some b
    → All (λ s. lookup s.source_id b.copies ≡ extend none (copy_list s hash)) ordered
unfolding lookup
copies_of_entry ordered hash b one_each found =
    let all = scan_all_sources-Collected ordered no_progress in
    All-imp
      (λ s picked.
        ap (in_building s.source_id) (sym found)
        ∙ all.copies hash s.source_id
        ∙ ap (extend none) picked)
      ordered (picked-All (λ s. copy_list s hash) ordered one_each)

abbrev pub described_entry : Bytes → Option ℕ → CoverageSource → SourcePresence
described_entry hash size s = record {
  source_id = s.source_id;
  presence = described_presence s hash size;
}

presences-described :
    (sources : List CoverageSource) (us : List UnknownRows) (hash : Bytes) (b : Building)
    (size : Option ℕ)
    → AllCounts sources us
    → All (λ s. lookup s.source_id b.copies ≡ extend none (copy_list s hash)) sources
    → presences sources us b size ≡ map (described_entry hash size) sources
unfolding presences
presences-described [] [] hash b size n k = refl
presences-described [] (u ∷ us) hash b size n k = absurd n
presences-described (s ∷ ss) [] hash b size n k = absurd n
presences-described (s ∷ ss) (u ∷ us) hash b size n k =
    let one = presence_in-described s u b size (copy_list s hash) _ k.0 (n.0 size) in
    let rest = presences-described ss us hash b size n.1 k.1 in
    λ i. record { source_id = s.source_id; presence = one i } ∷ rest i

-- In a successful grouping, the presence list of each group has one entry for each source, in id
-- order, and the entry is the described one: `unknown` for an unreachable source; else `present`
-- with the number of the source's effective, trusted file rows with the group's hash, where there
-- are any; else, by the evidence, an `unknown` or, for a complete source, `absent` exactly when no
-- effective file row of unknown content could have the group's size.
pub presence_described :
    (sources : List CoverageSource) (c : Coverage)
    → group sources ≡ ok c
    → All
        (λ g. g.presence ≡ map (described_entry g.content_hash g.size) (in_id_order sources))
        c.groups
unfolding group finish finish_group
presence_described sources c e =
    let ordered = in_id_order sources in
    let (_, distinct, e') = >>=-eq-ok (check_distinct ordered) _ e in
    let (g, scan, done) = >>=-eq-ok (scan_sources ordered no_progress) _ e' in
    let final = scan_all_sources ordered no_progress in
    let all = scan_all_sources-Collected ordered no_progress in
    let same : g ≡ final = scan_sources-ok ordered no_progress scan in
    let one_each = in_id_order-IsSorted sources distinct in
    let sorted = scan_all_sources-IsSorted ordered no_progress tt in
    subst
      (λ r. All (λ h. h.presence ≡ map (described_entry h.content_hash h.size) ordered) r.groups)
      (ap (finish ordered) (sym same) ∙ ok-injective done)
      (All-map _ (finish_group ordered final.unknown_rows) final.groups (
        All-imp
          (λ e found.
            presences-described ordered final.unknown_rows e.0 e.1 (agreed_size e.1.sizes)
              (subst (AllCounts ordered) (sym all.pushed) all.counts)
              (copies_of_entry ordered e.0 e.1 one_each found))
          final.groups (lookup-All final.groups sorted)))
