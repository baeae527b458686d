-- ===== src/Plan/Joined.antt =====
-- src/core/plan.rs: a joined path has one reading.
use backupsage.Base.{
  ◌≡◌, refl, sym, ap, subst, ◌∙◌, arith, ℕ, ◌==◌, true, false, List, [], ◌∷◌, ◌++◌, length, any, ok,
  >>=-eq-ok, ok-injective,
}
use backupsage.Coverage.{Bytes}
use backupsage.Diff.{to_hex}
use backupsage.Plan.Hex.{
  unhex, join_rest, join_parts, is_dots, is_separator, check_bytes, validate_component,
  validate_components,
}
use backupsage.Plan.Codec.{to_hex-unhex}

-- A list that is empty or begins with a separator.
abbrev Starts : Bytes → Type 0
Starts [] = Unit {0}
Starts (c ∷ rest) = (c == b'/') ≡ true

abbrev IsPlain : Bytes → Type 0
IsPlain bs = any is_separator bs ≡ false

-- Where two texts without separators are followed by separators, the cut is in one place.
cut_once :
    (x y r s : Bytes)
    → IsPlain x
    → IsPlain y
    → Starts r
    → Starts s
    → x ++ r ≡ y ++ s
    → (x ≡ y) × (r ≡ s)
cut_once [] [] r s p q a b e = (refl, e)
cut_once [] (d ∷ y) [] s p q a b e = cc
cut_once [] (d ∷ y) (c ∷ r) s p q a b e = ground arith
cut_once (c ∷ x) [] r [] p q a b e = cc
cut_once (c ∷ x) [] r (d ∷ s) p q a b e = ground arith
cut_once (c ∷ x) (d ∷ y) r s p q a b e = ground (arith, cut_once x y r s)

-- What `validate_component` accepts.
pub record IsComponent (c bytes : Bytes) : Type 0 where
  pub decoded : unhex c ≡ ok bytes
  pub filled : (length bytes == 0) ≡ false
  pub no_dots : is_dots bytes ≡ false
  pub plain : any is_separator bytes ≡ false

pub validate_component-IsComponent :
    (c : Bytes) → validate_component c ≡ ok tt → (bytes : Bytes) × IsComponent c bytes
unfolding validate_component check_bytes
validate_component-IsComponent c h =
    let (bytes, e, k) = >>=-eq-ok (unhex c) _ h in
    (
      bytes,
      record { decoded = e; filled = ground arith; no_dots = ground arith; plain = ground arith },
    )

join_rest-Starts : (ps : List Bytes) (b : Bytes) → join_rest ps ≡ ok b → Starts b
unfolding join_rest
join_rest-Starts [] b h = subst Starts (ok-injective h) tt
join_rest-Starts (p ∷ ps) b h =
    let (x, e, h₁) = >>=-eq-ok (unhex p) _ h in
    let (r, f, h₂) = >>=-eq-ok (join_rest ps) _ h₁ in subst Starts (ok-injective h₂) refl

same_text : (p q x y : Bytes) → unhex p ≡ ok x → unhex q ≡ ok y → x ≡ y → p ≡ q
same_text p q x y e f h = sym (to_hex-unhex p x e).0 ∙ ap to_hex h ∙ (to_hex-unhex q y f).0

-- The parts of one component and of what follows it.
record Cut (p : Bytes) (ps : List Bytes) (b : Bytes) : Type 0 where
  first : Bytes
  follow : Bytes
  first_eq : unhex p ≡ ok first
  follow_eq : join_rest ps ≡ ok follow
  first_filled : (length first == 0) ≡ false
  first_plain : IsPlain first
  whole : b ≡ first ++ follow

module _ (p : Bytes) (ps : List Bytes) (valid : validate_components (p ∷ ps) ≡ ok tt) where
  valid_split : (validate_component p ≡ ok tt) × (validate_components ps ≡ ok tt)
  unfolding validate_components
  valid_split = let (u, e, f) = >>=-eq-ok (validate_component p) _ valid in (e, f)

  join_parts-Cut : (b : Bytes) → join_parts (p ∷ ps) ≡ ok b → Cut p ps b
  unfolding join_parts
  join_parts-Cut b h =
      let (x, e, h₁) = >>=-eq-ok (unhex p) _ h in
      let (r, f, h₂) = >>=-eq-ok (join_rest ps) _ h₁ in
      let (y, c) = validate_component-IsComponent p valid_split.0 in
      let same : y ≡ x = ok-injective (sym c.decoded ∙ e) in
      record {
        first = x;
        follow = r;
        first_eq = e;
        follow_eq = f;
        first_filled = subst (λ z. (length z == 0) ≡ false) same c.filled;
        first_plain = subst IsPlain same c.plain;
        whole = sym (ok-injective h₂);
      }

  join_rest-Cut :
      (b : Bytes) → join_rest (p ∷ ps) ≡ ok b → (t : Bytes) × (b ≡ b'/' ∷ t) × Cut p ps t
  unfolding join_rest join_parts
  join_rest-Cut b h =
      let (x, e, h₁) = >>=-eq-ok (unhex p) _ h in
      let (r, f, h₂) = >>=-eq-ok (join_rest ps) _ h₁ in
      (x ++ r, sym (ok-injective h₂), join_parts-Cut (x ++ r) (rw (e, f)))

-- Two cuts of one text agree, if what follows has one reading.
same_cut :
    (p q : Bytes) (ps qs : List Bytes) (b : Bytes)
    → ((r : Bytes) → join_rest ps ≡ ok r → join_rest qs ≡ ok r → ps ≡ qs)
    → Cut p ps b
    → Cut q qs b
    → ◌≡◌ {A = List Bytes} (p ∷ ps) (q ∷ qs)
same_cut p q ps qs b rest c d =
    let (x, r) =
      cut_once c.first d.first c.follow d.follow c.first_plain d.first_plain
        (join_rest-Starts ps c.follow c.follow_eq) (join_rest-Starts qs d.follow d.follow_eq)
        (sym c.whole ∙ d.whole) in
    let heads : p ≡ q = same_text p q c.first d.first c.first_eq d.first_eq x in
    let tails : ps ≡ qs = rest c.follow c.follow_eq (d.follow_eq ∙ ap ok (sym r)) in
    λ i. heads i ∷ tails i

rest_apart :
    (q : Bytes) (qs : List Bytes)
    → validate_components (q ∷ qs) ≡ ok tt
    → (b : Bytes) → join_rest [] ≡ ok b
    → join_rest (q ∷ qs) ≡ ok b
    → ⊥
unfolding join_rest
rest_apart q qs w b h k =
    let (t, e, c) = join_rest-Cut q qs w b k in
    let bare : [] ≡ b = ok-injective h in cons_apart (bare ∙ e)
  where
    cons_apart : {c : ℕ} {t : Bytes} → [] ≡ c ∷ t → ⊥
    cons_apart e = ground arith

append-ne-nil : (x r : Bytes) → (length x == 0) ≡ false → [] ≡ x ++ r → ⊥
append-ne-nil [] r h e = ground arith
append-ne-nil (c ∷ x) r h e = ground arith

parts_apart :
    (q : Bytes) (qs : List Bytes)
    → validate_components (q ∷ qs) ≡ ok tt
    → (b : Bytes) → join_parts [] ≡ ok b
    → join_parts (q ∷ qs) ≡ ok b
    → ⊥
unfolding join_parts
parts_apart q qs w b h k =
    let c = join_parts-Cut q qs w b k in
    append-ne-nil c.first c.follow c.first_filled (ok-injective h ∙ c.whole)

join_rest_injective :
    (ps qs : List Bytes) (b : Bytes)
    → validate_components ps ≡ ok tt
    → validate_components qs ≡ ok tt
    → join_rest ps ≡ ok b
    → join_rest qs ≡ ok b
    → ps ≡ qs
join_rest_injective [] [] b v w h k = refl
join_rest_injective [] (q ∷ qs) b v w h k = absurd (rest_apart q qs w b h k)
join_rest_injective (p ∷ ps) [] b v w h k = absurd (rest_apart p ps v b k h)
join_rest_injective (p ∷ ps) (q ∷ qs) b v w h k =
    let (t, e, c) = join_rest-Cut p ps v b h in
    let (u, f, d) = join_rest-Cut q qs w b k in
    let same : t ≡ u = cc in
    same_cut p q ps qs u
      (λ r. join_rest_injective ps qs r (valid_split p ps v).1 (valid_split q qs w).1)
      (subst (Cut p ps) same c) d

-- Two lists of legal components that join to one path are one list.
pub join_parts_injective :
    (ps qs : List Bytes) (b : Bytes)
    → validate_components ps ≡ ok tt
    → validate_components qs ≡ ok tt
    → join_parts ps ≡ ok b
    → join_parts qs ≡ ok b
    → ps ≡ qs
unfolding join_parts
join_parts_injective [] [] b v w h k = refl
join_parts_injective [] (q ∷ qs) b v w h k = absurd (parts_apart q qs w b h k)
join_parts_injective (p ∷ ps) [] b v w h k = absurd (parts_apart p ps v b k h)
join_parts_injective (p ∷ ps) (q ∷ qs) b v w h k =
    same_cut p q ps qs b
      (λ r. join_rest_injective ps qs r (valid_split p ps v).1 (valid_split q qs w).1)
      (join_parts-Cut p ps v b h) (join_parts-Cut q qs w b k)
