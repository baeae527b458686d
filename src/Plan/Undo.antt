-- ===== src/Plan/Undo.antt =====
-- src/core/plan.rs: a suffix is found again and removed.
use backupsage.Base.{
  ◌≡◌, refl, sym, ap, subst, ◌∙◌, arith, ℕ, zero, suc, ◌+◌, ◌/◌, ◌%◌, ◌<◌, ◌==◌, true, false,
  Option, none, some, List, [], ◌∷◌, ◌++◌, length, length-append, append-nil, All, All-imp,
  All-append, Result, ok, ◌>>=◌, >>=-eq-ok, ok-injective, Bool-cases, Option-cases, inl, inr,
}
use backupsage.Base.Order.{eqb, eqb_iff, eqb_refl, nat_ord, list_ord}
use backupsage.Coverage.{Bytes}
use backupsage.Diff.{to_hex}
use backupsage.Plan.Types.{EntryKey, suffixed}
use backupsage.Plan.Hex.{PlanError, unhex}
use backupsage.Plan.Suffix.{
  split_last_dot, stem_ext, split_stem_ext, digits_within, decimal, suffix, strip_suffix,
  change_last, suffix_component, suffix_last_component, rejoined, without_suffix, base_component,
  base_components,
}
use backupsage.Plan.Codec.{IsByte, unhex-to_hex, to_hex-unhex}

-- A character of a suffix: no dot, and a byte.
abbrev IsSuffixChar : ℕ → Type 0
IsSuffixChar c = ((c == b'.') ≡ false) × (c < 256)

digits-IsSuffixChar : (rounds n : ℕ) → All IsSuffixChar (digits_within rounds n)
unfolding digits_within
digits-IsSuffixChar zero n = tt
digits-IsSuffixChar (suc rounds) n = elim (Bool-cases (n / 10 == 0)) [
  | inl y ↦ rw y (digit_ok n, tt)
  | inr m ↦
      rw m (All-append IsSuffixChar _ _ (digits-IsSuffixChar rounds (n / 10)) (digit_ok n, tt))
]
  where
    digit_ok : (n : ℕ) → IsSuffixChar (b'0' + n % 10)
    digit_ok n = ground arith

suffix-IsSuffixChar : (n : ℕ) → All IsSuffixChar (suffix n)
unfolding decimal
suffix-IsSuffixChar n = ((refl, omega arith), digits-IsSuffixChar 11 n)

no_dot : (t : Bytes) → All IsSuffixChar t → split_last_dot t ≡ none
unfolding split_last_dot
no_dot [] h = refl
no_dot (c ∷ t) h = ground (arith, no_dot t h.1)

none-append :
    (t r : Bytes)
    → split_last_dot t ≡ none
    → split_last_dot r ≡ none
    → split_last_dot (t ++ r) ≡ none
unfolding split_last_dot
none-append [] r e h = h
none-append (c ∷ t) r e h = elim (Option-cases (split_last_dot t)) [
  | inl n ↦ let more = none-append t r n h in ground arith
  | inr (p, q) ↦ ground arith
]

-- The last dot of the second part is the last one of the whole.
append-some :
    (t r stem ext : Bytes)
    → split_last_dot r ≡ some (stem, ext)
    → split_last_dot (t ++ r) ≡ some (t ++ stem, ext)
unfolding split_last_dot
append-some [] r stem ext e = e
append-some (c ∷ t) r stem ext e = rw (append-some t r stem ext e)

some-append :
    (x r stem ext : Bytes)
    → split_last_dot x ≡ some (stem, ext)
    → split_last_dot r ≡ none
    → split_last_dot (x ++ r) ≡ some (stem, ext ++ r)
unfolding split_last_dot
some-append [] r stem ext e h = cc
some-append (c ∷ x) r stem ext e h = elim (Option-cases (split_last_dot x)) [
  | inl n ↦ let more = none-append x r n h in ground arith
  | inr ((s, d), q) ↦ let more = some-append x r s d q h in ground arith
]

-- The extension begins with the only dot that it has.
ext_split :
    (x stem ext : Bytes)
    → split_last_dot x ≡ some (stem, ext)
    → (x ≡ stem ++ ext) × (split_last_dot ext ≡ some ([], ext))
unfolding split_last_dot
ext_split [] stem ext h = cc
ext_split (c ∷ x) stem ext h = elim (Option-cases (split_last_dot x)) [
  | inl n ↦ ground arith
  | inr ((s, d), q) ↦ let more = ext_split x s d q in ground arith
]

strip_suffix_self : (s : Bytes) → strip_suffix s s ≡ some []
unfolding strip_suffix
strip_suffix_self [] =
    let same : eqb {K = Bytes} [] [] ≡ true = eqb_refl {K = Bytes} [] in ground arith
strip_suffix_self (c ∷ s) = let same : eqb (c ∷ s) (c ∷ s) ≡ true = eqb_refl (c ∷ s) in ground arith

longer : (x : ℕ) (xs s : Bytes) → eqb (x ∷ xs ++ s) s ≡ false
longer x xs s = elim (Bool-cases (eqb (x ∷ xs ++ s) s)) [
  | inl y ↦ absurd (omega (arith, ap length ((eqb_iff (x ∷ xs ++ s) s).0 y), length-append xs s))
  | inr n ↦ n
]

strip_suffix-append : (x s : Bytes) → strip_suffix (x ++ s) s ≡ some x
unfolding strip_suffix
strip_suffix-append [] s = strip_suffix_self s
strip_suffix-append (x ∷ xs) s =
    let more = strip_suffix-append xs s in let l = longer x xs s in ground arith

abbrev SuffixedStem : Bytes → ℕ → Bytes × Bytes → Type 0
SuffixedStem raw n (stem, ext) =
    (raw ≡ stem ++ ext) × (split_stem_ext (stem ++ (suffix n ++ ext)) ≡ (stem ++ suffix n, ext))

split_suffixed :
    (raw : Bytes) (n : ℕ) (o : Option (Bytes × Bytes))
    → split_last_dot raw ≡ o
    → SuffixedStem raw n (stem_ext raw o)
unfolding split_stem_ext
split_suffixed raw n none h =
    let dots = none-append raw (suffix n) h (no_dot (suffix n) (suffix-IsSuffixChar n)) in
    (
      sym (append-nil raw),
      ap (λ t. split_stem_ext (raw ++ t)) (append-nil (suffix n))
          ∙ ap (stem_ext (raw ++ suffix n)) dots,
    )
split_suffixed raw n (some ([], ext)) h =
    let dots = some-append raw (suffix n) [] ext h (no_dot (suffix n) (suffix-IsSuffixChar n)) in
    (
      sym (append-nil raw),
      ap (λ t. split_stem_ext (raw ++ t)) (append-nil (suffix n))
          ∙ ap (stem_ext (raw ++ suffix n)) dots,
    )
split_suffixed raw n (some (c ∷ stem, ext)) h =
    let (whole, only) = ext_split raw (c ∷ stem) ext h in
    let dots =
      append-some (c ∷ stem) (suffix n ++ ext) (suffix n ++ []) ext
        (append-some (suffix n) ext [] ext only) in
    (
      whole,
      ap (stem_ext ((c ∷ stem) ++ (suffix n ++ ext))) dots
          ∙ ap (λ t. ((c ∷ stem) ++ t, ext)) (append-nil (suffix n)),
    )

IsByte-split : (x y : Bytes) → All IsByte (x ++ y) → All IsByte x × All IsByte y
IsByte-split [] y h = (tt, h)
IsByte-split (c ∷ x) y (b, h) = let (p, q) = IsByte-split x y h in ((b, p), q)

suffix-IsByte : (n : ℕ) → All IsByte (suffix n)
suffix-IsByte n = All-imp (λ c (h : IsSuffixChar c). h.1) (suffix n) (suffix-IsSuffixChar n)

-- One component, suffixed and stripped again.
base-suffix_component :
    (n : ℕ) (c c' : Bytes) → suffix_component n c ≡ ok c' → base_component n c' ≡ ok c
unfolding suffix_component base_component split_stem_ext
base-suffix_component n c c' h =
    let (raw, e, k) = >>=-eq-ok (unhex c) _ h in
    let (spelling, bytes) = to_hex-unhex c raw e in
    let parts = split_stem_ext raw in
    let (whole, again) = split_suffixed raw n (split_last_dot raw) refl in
    let (stem_bytes, ext_bytes) = IsByte-split parts.0 parts.1 (subst (All IsByte) whole bytes) in
    let new : unhex c' ≡ ok (parts.0 ++ (suffix n ++ parts.1)) =
      ap unhex (sym (ok-injective k))
      ∙ unhex-to_hex (parts.0 ++ (suffix n ++ parts.1)) (
          All-append IsByte parts.0 (suffix n ++ parts.1) stem_bytes
            (All-append IsByte (suffix n) parts.1 (suffix-IsByte n) ext_bytes)) in
    ap (λ (m : Result PlanError Bytes). m >>= λ x. without_suffix n (split_stem_ext x)) new
    ∙ ap (without_suffix n) again
    ∙ ap (rejoined parts.1) (strip_suffix-append parts.0 (suffix n))
    ∙ ap (λ x. ok (to_hex x)) (sym whole)
    ∙ ap ok spelling

change_last-undo :
    (f g : Bytes → Result PlanError Bytes) (parts parts' : List Bytes)
    → ((c c' : Bytes) → f c ≡ ok c' → g c' ≡ ok c)
    → change_last f parts ≡ ok parts'
    → change_last g parts' ≡ ok parts
unfolding change_last
change_last-undo f g [] parts' u h = cc
change_last-undo f g (c ∷ []) parts' u h =
    let (c', e, k) = >>=-eq-ok (f c) _ h in
    subst (λ p. change_last g p ≡ ok (c ∷ [])) (ok-injective k) (rw (u c c' e))
change_last-undo f g (c ∷ d ∷ rest) parts' u h =
    let (rest', e, k) = >>=-eq-ok (change_last f (d ∷ rest)) _ h in
    subst (λ p. change_last g p ≡ ok (c ∷ d ∷ rest)) (ok-injective k)
      (keeps_first rest' (change_last-undo f g (d ∷ rest) rest' u e))
  where
    keeps_first :
        (r : List Bytes)
        → change_last g r ≡ ok (d ∷ rest)
        → change_last g (c ∷ r) ≡ ok (c ∷ d ∷ rest)
    keeps_first [] q = cc
    keeps_first (x ∷ r) q = rw q

-- The base of a suffixed destination is the destination before it was suffixed, whatever its last
-- component is: also with dots, without an extension, or ending in a number of its own.
pub base-suffix :
    (parts parts' : List Bytes) (n : ℕ) (competing : List EntryKey)
    → suffix_last_component parts (suc n) ≡ ok parts'
    → base_components parts' (suffixed (suc n) competing) ≡ ok parts
unfolding suffix_last_component base_components
base-suffix parts parts' n competing h =
    change_last-undo (suffix_component (suc n)) (base_component (suc n)) parts parts'
      (base-suffix_component (suc n)) h
