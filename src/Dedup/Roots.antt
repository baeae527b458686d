-- ===== src/Dedup/Roots.antt =====
-- src/core/dedup.rs: `UnionFind`: where each position's parents end.
use backupsage.Base.{
  ◌≡◌, ◌≢◌, refl, sym, ap, subst, ◌∙◌, ◌⊎◌, inl, inr, arith, ℕ, zero, suc, ◌==◌, Option, some, List,
  length, get_elem?, set_elem, length-set_elem, get_elem?-set_elem_self, get_elem?-set_elem_ne, ok,
  Bool-cases,
}
use backupsage.Dedup.UnionFind.{find}

-- From one position the parents lead to a root, in fewer steps than the fuel.
pub data Climbs (p : List ℕ) : ℕ → ℕ → ℕ → Type 0 where
  stop : {f x : ℕ} → get_elem? p x ≡ some x → Climbs p (suc f) x x
  go : {f x y r : ℕ} → get_elem? p x ≡ some y → y ≢ x → Climbs p f y r → Climbs p (suc f) x r

some_injective : {a b : ℕ} → ◌≡◌ {A = Option ℕ} (some a) (some b) → a ≡ b
some_injective e = cc

pub Climbs-suc : {p : List ℕ} {f x r : ℕ} → Climbs p f x r → Climbs p (suc f) x r
Climbs-suc (stop e) = stop e
Climbs-suc (go e n c) = go e n (Climbs-suc c)

pub Climbs-IsRoot : {p : List ℕ} {f x r : ℕ} → Climbs p f x r → get_elem? p r ≡ some r
Climbs-IsRoot (stop e) = e
Climbs-IsRoot (go e n c) = Climbs-IsRoot c

-- One step up does not change the end.
Climbs-parent :
    {p : List ℕ} {f x r y : ℕ} → Climbs p f x r → get_elem? p x ≡ some y → Climbs p f y r
Climbs-parent {p} (stop {f} {x} e) e' =
    subst (λ z. Climbs p (suc f) z x) (some_injective (sym e ∙ e')) (stop e)
Climbs-parent {p} (go {f} {x} {y = z} {r} e n c) e' =
    subst (λ w. Climbs p (suc f) w r) (some_injective (sym e ∙ e')) (Climbs-suc c)

Climbs-get : {p : List ℕ} {f x r : ℕ} → Climbs p f x r → (y : ℕ) × (get_elem? p x ≡ some y)
Climbs-get (stop {x} e) = (x, e)
Climbs-get (go {y} e n c) = (y, e)

-- Two positions that are each other's parents have no end.
no_cycle :
    {p : List ℕ} {r : ℕ} (f x y : ℕ)
    → get_elem? p x ≡ some y
    → get_elem? p y ≡ some x
    → x ≢ y
    → Climbs p f x r
    → ⊥
no_cycle (suc f) x y e e' n (stop e₁) = n (some_injective (sym e₁ ∙ e))
no_cycle zero x y e e' n c = elim c [ ]
no_cycle {p} {r} (suc f) x y e e' n (go {y = z} e₁ n₁ c) =
    no_cycle f y x e' e (λ q. n (sym q))
      (subst (λ w. Climbs p f w r) (some_injective (sym e₁ ∙ e)) c)

pub ℕ-cases : (x z : ℕ) → (x ≡ z) ⊎ (x ≢ z)
ℕ-cases x z = elim (Bool-cases (x == z)) [ inl e ↦ inl (ground arith) | inr e ↦ inr (ground arith) ]

-- Path halving keeps every end.
halved :
    {p : List ℕ} {f z r : ℕ} (x y g : ℕ)
    → get_elem? p x ≡ some y
    → y ≢ x
    → get_elem? p y ≡ some g
    → Climbs p f z r
    → Climbs (set_elem p x g) f z r
halved {p} x y g e n e' (stop {x = z} e₁) = stop (
    get_elem?-set_elem_ne p x z g
      (λ q. n (some_injective (sym e ∙ ap (get_elem? p) q ∙ e₁ ∙ ap some (sym q))))
    ∙ e₁)
halved {p} x y g e n e' (go {f} {x = z} {y = w} {r} e₁ n₁ c) =
    let later = halved x y g e n e' c in
    elim (ℕ-cases x z) [
      | inl q ↦
          let same : w ≡ y = some_injective (sym e₁ ∙ ap (get_elem? p) (sym q) ∙ e) in
          let from_y : Climbs (set_elem p x g) f y r =
            subst (λ v. Climbs (set_elem p x g) f v r) same later in
          let g_ne : g ≢ x = λ h.
            no_cycle (suc f) x y e (e' ∙ ap some h) (λ k. n (sym k))
              (go e n (subst (λ v. Climbs p f v r) same c)) in
          subst (λ v. Climbs (set_elem p x g) (suc f) v r) q
            (go (get_elem?-set_elem_self p x g e) g_ne
              (Climbs-parent from_y (get_elem?-set_elem_ne p x y g (λ k. n (sym k)) ∙ e')))
      | inr q ↦ go (get_elem?-set_elem_ne p x z g q ∙ e₁) n₁ later
    ]

-- What a change of the parents may do: every end stays, within the same fuel.
pub record IsKept (p p' : List ℕ) : Type 0 where
  pub size : length p' ≡ length p
  pub climbs : {f z r : ℕ} → Climbs p f z r → Climbs p' f z r

pub IsKept-trans : {p q t : List ℕ} → IsKept p q → IsKept q t → IsKept p t
IsKept-trans a b = record { size = b.size ∙ a.size; climbs = λ c. b.climbs (a.climbs c) }

find_step :
    (f : ℕ) (p : List ℕ) (x y g : ℕ)
    → get_elem? p x ≡ some y
    → y ≢ x
    → get_elem? p y ≡ some g
    → find (suc f) (record { parent = p }) x ≡ find f (record { parent = set_elem p x g }) g
unfolding find
find_step f p x y g e n e' = ground (arith, n)

-- The loop of `find` ends within the fuel that bounds the walk, at the same root.
pub find_lem :
    (f : ℕ) (p : List ℕ) (x r : ℕ)
    → Climbs p f x r
    → (p' : List ℕ) × (find f (record { parent = p }) x ≡ ok (record { parent = p' }, r))
      × IsKept p p'
unfolding find
find_lem zero p x r c = elim c [ ]
find_lem (suc f) p x r (stop e) = (p, ground (arith, e), record { size = refl; climbs = λ c. c })
find_lem (suc f) p x r (go {y} e n c) =
    let (g, e') = Climbs-get c in
    let p₁ = set_elem p x g in
    let kept : IsKept p p₁ = record {
      size = length-set_elem p x g;
      climbs = halved x y g e n e';
    } in
    let (p₂, found, kept₂) =
      find_lem f p₁ g r
        (Climbs-parent (kept.climbs c) (get_elem?-set_elem_ne p x y g (λ k. n (sym k)) ∙ e')) in
    (p₂, find_step f p x y g e n e' ∙ found, IsKept-trans kept kept₂)
