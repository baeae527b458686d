-- ===== src/Floors/Verdicts.antt =====
-- What the verdicts mean, and the totals of the report.
use backupsage.Base.{
  ℕ, ◌+◌, ◌≤◌, ◌≡◌, ◌≢◌, refl, List, [], ◌∷◌, ok, >>=-eq-ok, ok-injective, arith, traverse, map,
  sym, ap, ◌∙◌,
}
use backupsage.Base.Int.{ℤ}
use backupsage.Base.Order.{int_ord}
use backupsage.Coverage.{
  Presence, present, absent, unknown, UnknownReason, SourcePresence, ContentGroup,
}
use backupsage.Floors.Types.{
  counts_toward_floor, FloorParams, below_floor, inconclusive, GroupFloor,
}
use backupsage.Floors.Evaluate.{
  Designations, index, is_protected, Tally, no_tally, tally_one, tally, tally_present, verdict_of,
  judge_group, floor_copy, floor_of,
}

-- What an unknown presence may turn out to be; a known one stays.
pub data Settles : Presence → Presence → Type 0 where
  present_stays : (n : ℕ) → Settles (present n) (present n)
  absent_stays : Settles absent absent
  found : (r : UnknownReason) (n : ℕ) → Settles (unknown r) (present n)
  missing : (r : UnknownReason) → Settles (unknown r) absent
  unknown_stays : (r : UnknownReason) → Settles (unknown r) (unknown r)

abbrev pub SettlesAll : List SourcePresence → List SourcePresence → Type 0
SettlesAll [] [] = Unit
SettlesAll [] (q ∷ qs) = ⊥
SettlesAll (p ∷ ps) [] = ⊥
SettlesAll (p ∷ ps) (q ∷ qs) =
    (p.source_id ≡ q.source_id) × Settles p.presence q.presence × SettlesAll ps qs

-- More is known in the second tally.
record IsSharper (a b : Tally) : Type 0 where
  grown : a.trusted ≤ b.trusted
  room : b.trusted + b.unknown_sources ≤ a.trusted + a.unknown_sources

module _ (d : Designations) where
  tally_one-IsSharper :
      {a b a' b' : Tally} (id : ℤ) {p q : Presence}
      → Settles p q
      → IsSharper a b
      → tally_one d a id p ≡ ok a'
      → tally_one d b id q ≡ ok b'
      → IsSharper a' b'
  unfolding tally_one
  tally_one-IsSharper id (present_stays n) h e f = ground arith
  tally_one-IsSharper id absent_stays h e f = ground arith
  tally_one-IsSharper id (found r n) h e f = ground arith
  tally_one-IsSharper id (missing r) h e f = ground arith
  tally_one-IsSharper id (unknown_stays r) h e f = ground arith

  tally-IsSharper :
      (a b : Tally) {a' b' : Tally} (ps qs : List SourcePresence)
      → SettlesAll ps qs
      → IsSharper a b
      → tally d a ps ≡ ok a'
      → tally d b qs ≡ ok b'
      → IsSharper a' b'
  unfolding tally
  tally-IsSharper a b [] [] s h e f = ground arith
  tally-IsSharper a b [] (q ∷ qs) s h e f = absurd s
  tally-IsSharper a b (p ∷ ps) [] s h e f = absurd s
  tally-IsSharper a b (p ∷ ps) (q ∷ qs) (same, s, more) h e f =
      let (a₁, e₁, e₂) = >>=-eq-ok (tally_one d a p.source_id p.presence) _ e in
      let (b₁, f₁, f₂) = >>=-eq-ok (tally_one d b q.source_id q.presence) _ f in
      tally-IsSharper a₁ b₁ ps qs more (tally_one-IsSharper p.source_id s h e₁ (rw (← same) at f₁))
        e₂ f₂

verdict_of-IsSharper :
    (m : ℕ) (a b : Tally)
    → IsSharper a b
    → verdict_of m a ≢ inconclusive
    → verdict_of m b ≡ verdict_of m a
unfolding verdict_of
verdict_of-IsSharper m a b h n = ground arith

judge_group-verdict :
    (d : Designations) (p : FloorParams) (g : ContentGroup) {f : GroupFloor}
    → judge_group d p g ≡ ok f
    → (t : Tally) × (tally d no_tally g.presence ≡ ok t) × (f.verdict ≡ verdict_of p.min_copies t)
unfolding judge_group
judge_group-verdict d p g {f} e =
    let (t, tallied, e') = >>=-eq-ok (tally d no_tally g.presence) _ e in
    let (copies, _, done) = >>=-eq-ok (traverse (floor_copy d) g.copies) _ e' in
    (t, tallied, sym (ap (λ (r : GroupFloor). r.verdict) (ok-injective done)))

-- A verdict that is not `inconclusive` is final: however unknown presences of the group are settled,
-- as present or absent, judging it again gives the same verdict.
pub verdict_final :
    (d : Designations) (p : FloorParams) (g : ContentGroup) (settled : List SourcePresence)
    (f f' : GroupFloor)
    → SettlesAll g.presence settled
    → judge_group d p g ≡ ok f
    → judge_group d p (record g { presence = settled }) ≡ ok f'
    → f.verdict ≢ inconclusive
    → f'.verdict ≡ f.verdict
verdict_final d p g settled f f' s e e' n =
    let (t, tallied, v) = judge_group-verdict d p g e in
    let (t', tallied', v') = judge_group-verdict d p (record g { presence = settled }) e' in
    let sharper =
      tally-IsSharper d no_tally no_tally g.presence settled s
        (record { grown = omega arith; room = omega arith }) tallied tallied' in
    v' ∙ verdict_of-IsSharper p.min_copies t t' sharper (λ h. n (v ∙ h)) ∙ sym v

-- Every unknown presence settled as absent.
abbrev pub settle_absent : Presence → Presence
settle_absent (unknown r) = absent
settle_absent p = p

abbrev settle_entry : SourcePresence → SourcePresence
settle_entry p = record p { presence = settle_absent p.presence }

abbrev pub all_absent : List SourcePresence → List SourcePresence
all_absent = map settle_entry

abbrev SameTrusted : Tally → Tally → Type 0
SameTrusted a b = (b.trusted ≡ a.trusted) × (b.unknown_sources ≡ 0)

tally_one-settle_absent :
    (d : Designations) (a b : Tally) (id : ℤ) (q : Presence) {a' : Tally}
    → SameTrusted a b
    → tally_one d a id q ≡ ok a'
    → (b' : Tally) × (tally_one d b id (settle_absent q) ≡ ok b') × SameTrusted a' b'
unfolding tally_one
tally_one-settle_absent d a b id (unknown r) h e = (b, refl, ground arith)
tally_one-settle_absent d a b id absent h e = (b, refl, ground arith)
tally_one-settle_absent d a b id (present n) {a'} h e =
    let (status, held, done) = >>=-eq-ok (index d.status_of id) _ e in
    let counted : a' ≡ tally_present (counts_toward_floor status) (is_protected d id) a =
      sym (ok-injective done) in
    (
      tally_present (counts_toward_floor status) (is_protected d id) b,
      rw held,
      rw counted (ground arith),
    )

tally-all_absent :
    (d : Designations) (a b : Tally) (ps : List SourcePresence) {a' : Tally}
    → SameTrusted a b
    → tally d a ps ≡ ok a'
    → (b' : Tally) × (tally d b (all_absent ps) ≡ ok b') × SameTrusted a' b'
unfolding tally
tally-all_absent d a b [] h e = (b, refl, ground arith)
tally-all_absent d a b (p ∷ ps) h e =
    let (a₁, e₁, e₂) = >>=-eq-ok (tally_one d a p.source_id p.presence) _ e in
    let (b₁, f₁, h₁) = tally_one-settle_absent d a b p.source_id p.presence h e₁ in
    let (b', f', h') = tally-all_absent d a₁ b₁ ps h₁ e₂ in (b', rw f₁ f', h')

verdict_of-SameTrusted :
    (m : ℕ) (a b : Tally)
    → SameTrusted a b
    → verdict_of m a ≡ inconclusive
    → verdict_of m b ≡ below_floor
unfolding verdict_of
verdict_of-SameTrusted m a b h e = ground arith

-- An `inconclusive` verdict is open: a group that is judged so is judged `below_floor` if all of its
-- unknown presences turn out to be absent.
pub inconclusive_open :
    (d : Designations) (p : FloorParams) (g : ContentGroup) (f : GroupFloor)
    → judge_group d p g ≡ ok f
    → f.verdict ≡ inconclusive
    → (f' : GroupFloor) × (judge_group d p (record g { presence = all_absent g.presence }) ≡ ok f')
      × (f'.verdict ≡ below_floor)
unfolding judge_group
inconclusive_open d p g f e v =
    let (t, tallied, e') = >>=-eq-ok (tally d no_tally g.presence) _ e in
    let (copies, listed, done) = >>=-eq-ok (traverse (floor_copy d) g.copies) _ e' in
    let (t', tallied', same) =
      tally-all_absent d no_tally no_tally g.presence (refl, refl) tallied in
    let was : verdict_of p.min_copies t ≡ inconclusive =
      ap (λ (r : GroupFloor). r.verdict) (ok-injective done) ∙ v in
    (
      floor_of p (record g { presence = all_absent g.presence }) t' copies,
      rw (tallied', listed),
      verdict_of-SameTrusted p.min_copies t t' same was,
    )
