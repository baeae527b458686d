-- ===== src/Dedup/Forest.antt =====
-- src/core/dedup.rs: `UnionFind::union`, and a run of unions: which positions share a root.
use backupsage.Base.{
  ◌≡◌, ◌≢◌, refl, sym, ap, subst, ◌∙◌, inl, inr, arith, ℕ, zero, suc, ◌+◌, ◌<◌, ◌≤◌, ◌==◌, true,
  false, Option, some, List, [], ◌∷◌, length, get_elem?, set_elem, length-set_elem,
  get_elem?-set_elem_self, get_elem?-set_elem_ne, if◌then◌else◌, ok, All,
}
use backupsage.Dedup.Near.{Pair}
use backupsage.Dedup.UnionFind.{UnionFind, find, union, union_all}
use backupsage.Dedup.Roots.{Climbs, stop, go, Climbs-suc, Climbs-IsRoot, ℕ-cases, find_lem}

-- The least equivalence that relates what `E` relates.
pub data Chain (E : ℕ → ℕ → Type 0) : ℕ → ℕ → Type 0 where
  here : {a : ℕ} → Chain E a a
  along : {a b c : ℕ} → E a b → Chain E b c → Chain E a c
  against : {a b c : ℕ} → E b a → Chain E b c → Chain E a c

pub Chain-trans : {E : ℕ → ℕ → Type 0} {a b c : ℕ} → Chain E a b → Chain E b c → Chain E a c
Chain-trans here k = k
Chain-trans (along e h) k = along e (Chain-trans h k)
Chain-trans (against e h) k = against e (Chain-trans h k)

pub Chain-sym : {E : ℕ → ℕ → Type 0} {a b : ℕ} → Chain E a b → Chain E b a
Chain-sym here = here
Chain-sym (along e h) = Chain-trans (Chain-sym h) (against e here)
Chain-sym (against e h) = Chain-trans (Chain-sym h) (along e here)

pub Chain-imp :
    {E F : ℕ → ℕ → Type 0}
    → ((a b : ℕ) → E a b → Chain F a b)
    → {a b : ℕ} → Chain E a b
    → Chain F a b
Chain-imp f here = here
Chain-imp f (along {a} {b} e h) = Chain-trans (f a b e) (Chain-imp f h)
Chain-imp f (against {a} {b} e h) = Chain-trans (Chain-sym (f b a e)) (Chain-imp f h)

-- What a root becomes when the root `ra` gets the parent `rb`.
abbrev pub moved : ℕ → ℕ → ℕ → ℕ
moved ra rb r = if r == ra then rb else r

Climbs-moved :
    {p : List ℕ} {f x r : ℕ} (ra rb : ℕ)
    → get_elem? p ra ≡ some ra
    → get_elem? p rb ≡ some rb
    → rb ≢ ra
    → Climbs p f x r
    → Climbs (set_elem p ra rb) (suc f) x (moved ra rb r)
Climbs-moved {p} ra rb ea eb n (stop {f} {x} e) = elim (ℕ-cases ra x) [
  | inl q ↦
      let yes_moved : moved ra rb x ≡ rb = ground arith in
      rw yes_moved (
        subst (λ v. Climbs (set_elem p ra rb) (suc (suc f)) v rb) q
          (go (get_elem?-set_elem_self p ra rb ea) n
            (stop (get_elem?-set_elem_ne p ra rb rb (λ k. n (sym k)) ∙ eb))))
  | inr q ↦
      let not_moved : moved ra rb x ≡ x = ground (arith, q) in
      rw not_moved (stop (get_elem?-set_elem_ne p ra x rb q ∙ e))
]
Climbs-moved {p} ra rb ea eb n (go {x} {y} e m c) =
    go
      (get_elem?-set_elem_ne p ra x rb
          (λ q. m (some_eq (sym e ∙ ap (get_elem? p) (sym q) ∙ ea ∙ ap some q)))
        ∙ e)
      m (Climbs-moved ra rb ea eb n c)
  where
    some_eq : {a b : ℕ} → ◌≡◌ {A = Option ℕ} (some a) (some b) → a ≡ b
    some_eq h = cc

Climbs-le : {p : List ℕ} {x r : ℕ} (d f : ℕ) → d ≤ f → Climbs p d x r → Climbs p f x r
Climbs-le zero f h c = elim c [ ]
Climbs-le (suc d) zero h c = absurd (omega arith)
Climbs-le (suc d) (suc f) h (stop e) = stop e
Climbs-le (suc d) (suc f) h (go e n c) = go e n (Climbs-le d f (omega arith) c)

-- All `n` positions reach the root `R` gives, in fewer than `d` steps.
pub record IsForest (n d : ℕ) (R : ℕ → ℕ) (uf : UnionFind) : Type 0 where
  pub size : length uf.parent ≡ n
  pub climbs : (x : ℕ) → x < n → Climbs uf.parent d x (R x)

pub find-IsForest :
    (n d fuel : ℕ) (R : ℕ → ℕ) (uf : UnionFind) (x : ℕ)
    → d ≤ fuel
    → x < n
    → IsForest n d R uf
    → (uf' : UnionFind) × (find fuel uf x ≡ ok (uf', R x)) × IsForest n d R uf'
find-IsForest n d fuel R uf x le lt h =
    let (p', found, kept) = find_lem fuel uf.parent x (R x) (Climbs-le d fuel le (h.climbs x lt)) in
    (
      record { parent = p' },
      found,
      record { size = kept.size ∙ h.size; climbs = λ z l. kept.climbs (h.climbs z l) },
    )

pub union-IsForest :
    (n d fuel : ℕ) (R : ℕ → ℕ) (uf : UnionFind) (a b : ℕ)
    → d ≤ fuel
    → a < n
    → b < n
    → IsForest n d R uf
    → (uf' : UnionFind) × (union fuel uf a b ≡ ok uf')
      × IsForest n (suc d) (λ x. moved (R a) (R b) (R x)) uf'
unfolding union
union-IsForest n d fuel R uf a b le la lb h =
    let (uf₁, found_a, h₁) = find-IsForest n d fuel R uf a le la h in
    let (uf₂, found_b, h₂) = find-IsForest n d fuel R uf₁ b le lb h₁ in
    elim (ℕ-cases (R b) (R a)) [
      | inl e ↦
          let same : (R a == R b) ≡ true = ground arith in
          let unmoved : (x : ℕ) → R x ≡ moved (R a) (R b) (R x) = λ x. ground arith in
          (
            uf₂,
            rw (found_a, found_b, same) refl,
            record {
              size = h₂.size;
              climbs = λ x l.
                  Climbs-suc (subst (λ r. Climbs uf₂.parent d x r) (unmoved x) (h₂.climbs x l));
            },
          )
      | inr n ↦
          let differ : (R a == R b) ≡ false = ground (arith, n) in
          (
            record { parent = set_elem uf₂.parent (R a) (R b) },
            rw (found_a, found_b, differ) refl,
            record {
              size = length-set_elem uf₂.parent (R a) (R b) ∙ h₂.size;
              climbs = λ x l.
                  Climbs-moved (R a) (R b) (Climbs-IsRoot (h₂.climbs a la))
                    (Climbs-IsRoot (h₂.climbs b lb)) n (h₂.climbs x l);
            },
          )
    ]

abbrev pub InRange : ℕ → Pair → Type 0
InRange n p = (p.0 < n) × (p.1 < n)

module _ (E : ℕ → ℕ → Type 0) where
  -- Sharing a root under `R'` is the least equivalence over sharing one under `R` and the pairs.
  pub record Joins (pairs : List Pair) (R R' : ℕ → ℕ) : Type 0 where
    pub coarser : (x y : ℕ) → R x ≡ R y → R' x ≡ R' y
    pub joins : All (λ p. R' p.0 ≡ R' p.1) pairs
    pub sound :
        ((x y : ℕ) → R x ≡ R y → Chain E x y)
        → All (λ p. E p.0 p.1) pairs
        → (x y : ℕ) → R' x ≡ R' y
        → Chain E x y

  moved_sound :
      (R : ℕ → ℕ) (a b : ℕ)
      → ((x y : ℕ) → R x ≡ R y → Chain E x y)
      → E a b
      → (x y : ℕ) → moved (R a) (R b) (R x) ≡ moved (R a) (R b) (R y)
      → Chain E x y
  moved_sound R a b old e x y h = elim (ℕ-cases (R x) (R a)) [
    | inl p ↦ elim (ℕ-cases (R y) (R a)) [
      | inl q ↦ old x y (p ∙ sym q)
      | inr q ↦ Chain-trans (old x a p) (along e (old b y (ground (arith, q))))
    ]
    | inr p ↦ elim (ℕ-cases (R y) (R a)) [
      | inl q ↦ Chain-trans (old x b (ground (arith, p))) (against e (old a y (sym q)))
      | inr q ↦ old x y (ground (arith, p, q))
    ]
  ]

  pub union_all-IsForest :
      (n d fuel : ℕ) (R : ℕ → ℕ) (uf : UnionFind) (pairs : List Pair)
      → d + length pairs ≤ fuel
      → All (InRange n) pairs
      → IsForest n d R uf
      → (R' : ℕ → ℕ) × (uf' : UnionFind) × (union_all fuel uf pairs ≡ ok uf')
        × IsForest n (d + length pairs) R' uf'
        × Joins pairs R R'
  unfolding union_all
  union_all-IsForest n d fuel R uf [] le hs h = (
    R,
    uf,
    refl,
    subst (λ k. IsForest n k R uf) (omega arith) h,
    record { coarser = λ x y e. e; joins = tt; sound = λ old _. old },
  )
  union_all-IsForest n d fuel R uf (p ∷ pairs) le ((la, lb), hs) h =
      let (uf₁, ran, h₁) = union-IsForest n d fuel R uf p.0 p.1 (omega arith) la lb h in
      let (R', uf', ran', h', j) =
        union_all-IsForest n (suc d) fuel (λ x. moved (R p.0) (R p.1) (R x)) uf₁ pairs (omega arith)
          hs h₁ in
      (
        R',
        uf',
        rw (ran, ran') refl,
        subst (λ k. IsForest n k R' uf') (omega arith) h',
        record {
          coarser = λ x y e. j.coarser x y (ap (moved (R p.0) (R p.1)) e);
          joins = (j.coarser p.0 p.1 (ground arith), j.joins);
          sound = λ old es. j.sound (moved_sound R p.0 p.1 old es.0) es.1;
        },
      )

  -- Along a chain of joined pairs the root stays.
  pub Chain-root :
      (R : ℕ → ℕ) → ((x y : ℕ) → E x y → R x ≡ R y) → {x y : ℕ} → Chain E x y → R x ≡ R y
  Chain-root R keep here = refl
  Chain-root R keep (along {a} {b} e h) = keep a b e ∙ Chain-root R keep h
  Chain-root R keep (against {a} {b} e h) = sym (keep b a e) ∙ Chain-root R keep h
