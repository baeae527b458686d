-- ===== src/Plan/Identified.antt =====
-- src/core/plan.rs: the preimage of an action id identifies the action.
use backupsage.Base.{
  ◌≡◌, refl, sym, ap, ◌∙◌, arith, ◌^◌, ◌<◌, Option, none, some, List, [], ◌∷◌, ◌++◌, All, ok,
  >>=-eq-ok, ok-injective, traverse,
}
use backupsage.Base.Int.{ℤ, pos, negsuc}
use backupsage.Coverage.{Bytes}
use backupsage.Dedup.{as_u64}
use backupsage.Plan.Types.{SourceRef, Op, mkdir, move, extract}
use backupsage.Plan.Hex.{unhex}
use backupsage.Plan.Ids.{
  le8, le8_i64, framed, tag, dest_of, trailer, action_elements, domain_action,
}
use backupsage.Plan.Canonical.{source_of}
use backupsage.Plan.Framing.{
  le_value, value-le_bytes, le8_injective, front_equal, back_equal, IsShort, framed_injective,
  unhex_all-injective, length-trailer,
}

-- The numbers of an `i64`.
abbrev pub IsI64 : ℤ → Type 0
IsI64 (pos n) = n < 2 ^ 63
IsI64 (negsuc n) = n < 2 ^ 63

as_u64-below : (n : ℤ) → as_u64 n < 2 ^ 64
unfolding as_u64
as_u64-below (pos n) = omega arith
as_u64-below (negsuc n) = omega arith

as_u64_injective : (m n : ℤ) → IsI64 m → IsI64 n → as_u64 m ≡ as_u64 n → m ≡ n
unfolding as_u64
as_u64_injective (pos m) (pos n) p q e = ap pos (omega arith)
as_u64_injective (pos m) (negsuc n) p q e = absurd (omega arith)
as_u64_injective (negsuc m) (pos n) p q e = absurd (omega arith)
as_u64_injective (negsuc m) (negsuc n) p q e = ap negsuc (omega arith)

le8_i64_injective : (m n : ℤ) → IsI64 m → IsI64 n → le8_i64 m ≡ le8_i64 n → m ≡ n
unfolding le8_i64
le8_i64_injective m n p q e = as_u64_injective m n p q (
    sym (value-le_bytes 8 (as_u64 m) (as_u64-below m))
    ∙ ap le_value e
    ∙ value-le_bytes 8 (as_u64 n) (as_u64-below n))

-- The same root, file id and content hash, or nothing read by either.
abbrev pub SameSource : Option SourceRef → Option SourceRef → Type 0
SameSource none none = Unit {0}
SameSource none (some s) = ⊥
SameSource (some s) none = ⊥
SameSource (some s) (some s') =
    (s.root_id ≡ s'.root_id) × (s.file_id ≡ s'.file_id) × (s.content_hash ≡ s'.content_hash)

-- The group and the slot of a quarantine.
abbrev pub filing_of : Op → Option (Bytes × Bytes)
filing_of (mkdir dest) = none
filing_of (move s dest c) = none
filing_of (extract s dest c) = none
filing_of (Op.quarantine s dest group_id slot) = some (group_id, slot)

-- What the preimage of an id says of the action.
pub record SameAction (op op' : Op) : Type 0 where
  pub same_tag : tag op ≡ tag op'
  pub same_root : (dest_of op).root_id ≡ (dest_of op').root_id
  pub same_parts : (dest_of op).parts_raw ≡ (dest_of op').parts_raw
  pub same_source : SameSource (source_of op) (source_of op')
  pub same_filing : filing_of op ≡ filing_of op'

abbrev FitsSource : Option SourceRef → Type 0
FitsSource none = Unit {0}
FitsSource (some s) = (s.root_id < 2 ^ 64) × IsI64 s.file_id

-- The numbers of an operation fit their machine words.
abbrev pub FitsWords : Op → Type 0
FitsWords op = ((dest_of op).root_id < 2 ^ 64) × FitsSource (source_of op)

front_source :
    (s s' : SourceRef) (r r' : List Bytes)
    → FitsSource (some s)
    → FitsSource (some s')
    → ◌≡◌ {A = List Bytes}
        (le8 s.root_id ∷ le8_i64 s.file_id ∷ s.content_hash ∷ r)
        (le8 s'.root_id ∷ le8_i64 s'.file_id ∷ s'.content_hash ∷ r')
    → SameSource (some s) (some s') × (r ≡ r')
front_source s s' r r' (w, f) (w', f') e =
    let roots : le8 s.root_id ≡ le8 s'.root_id = cc e in
    let files : le8_i64 s.file_id ≡ le8_i64 s'.file_id = cc e in
    let hashes : s.content_hash ≡ s'.content_hash = cc e in
    let rest : r ≡ r' = cc e in
    (
      (
        le8_injective s.root_id s'.root_id w w' roots,
        le8_i64_injective s.file_id s'.file_id f f' files,
        hashes,
      ),
      rest,
    )

trailer-Same :
    (op op' : Op)
    → tag op ≡ tag op'
    → FitsSource (source_of op)
    → FitsSource (source_of op')
    → trailer op ≡ trailer op'
    → SameSource (source_of op) (source_of op') × (filing_of op ≡ filing_of op')
unfolding tag trailer
trailer-Same (mkdir d) (mkdir d') t f f' e = (tt, refl)
trailer-Same (mkdir d) (move s' d' c') t f f' e = absurd (ground arith)
trailer-Same (mkdir d) (extract s' d' c') t f f' e = absurd (ground arith)
trailer-Same (mkdir d) (Op.quarantine s' d' g' t') t f f' e = absurd (ground arith)
trailer-Same (move s d c) (mkdir d') t f f' e = absurd (ground arith)
trailer-Same (move s d c) (move s' d' c') t f f' e = ((front_source s s' [] [] f f' e).0, refl)
trailer-Same (move s d c) (extract s' d' c') t f f' e = absurd (ground arith)
trailer-Same (move s d c) (Op.quarantine s' d' g' t') t f f' e = absurd (ground arith)
trailer-Same (extract s d c) (mkdir d') t f f' e = absurd (ground arith)
trailer-Same (extract s d c) (move s' d' c') t f f' e = absurd (ground arith)
trailer-Same (extract s d c) (extract s' d' c') t f f' e =
    ((front_source s s' [] [] f f' e).0, refl)
trailer-Same (extract s d c) (Op.quarantine s' d' g' t') t f f' e = absurd (ground arith)
trailer-Same (Op.quarantine s d g u) (mkdir d') t f f' e = absurd (ground arith)
trailer-Same (Op.quarantine s d g u) (move s' d' c') t f f' e = absurd (ground arith)
trailer-Same (Op.quarantine s d g u) (extract s' d' c') t f f' e = absurd (ground arith)
trailer-Same (Op.quarantine s d g u) (Op.quarantine s' d' g' u') t f f' e =
    let (source, filing) = front_source s s' (g ∷ u ∷ []) (g' ∷ u' ∷ []) f f' e in
    (source, cc filing)

elements-SameAction :
    (op op' : Op) (es : List Bytes)
    → FitsWords op
    → FitsWords op'
    → action_elements op ≡ ok es
    → action_elements op' ≡ ok es
    → SameAction op op'
unfolding action_elements
elements-SameAction op op' es (w, f₀) (w', f₁) h k =
    let (ps, e, h₁) = >>=-eq-ok (traverse unhex (dest_of op).parts_raw) _ h in
    let (qs, f, k₁) = >>=-eq-ok (traverse unhex (dest_of op').parts_raw) _ k in
    let both : ◌≡◌ {A = List Bytes} (tag op ∷ le8 (dest_of op).root_id ∷ ps ++ trailer op)
        (tag op' ∷ le8 (dest_of op').root_id ∷ qs ++ trailer op') =
      ok-injective h₁ ∙ sym (ok-injective k₁) in
    let tags : tag op ≡ tag op' = cc both in
    let roots : le8 (dest_of op).root_id ≡ le8 (dest_of op').root_id = cc both in
    let rest : ps ++ trailer op ≡ qs ++ trailer op' = cc both in
    let (parts, trailers) =
      back_equal ps qs (trailer op) (trailer op') (length-trailer op op' tags) rest in
    let (source, filing) = trailer-Same op op' tags f₀ f₁ trailers in
    record {
      same_tag = tags;
      same_root = le8_injective (dest_of op).root_id (dest_of op').root_id w w' roots;
      same_parts =
          unhex_all-injective (dest_of op).parts_raw (dest_of op').parts_raw qs (e ∙ ap ok parts) f;
      same_source = source;
      same_filing = filing;
    }

-- If the preimages of two action ids are equal, the actions have the same tag, the same destination
-- root and components, and the same source root, file id, content hash, group and slot as far as
-- they have these; for root ids and lengths below 2 ^ 64 and file ids of 64 signed bits.
pub preimage_identifies :
    (op op' : Op) (es es' : List Bytes)
    → FitsWords op
    → FitsWords op'
    → action_elements op ≡ ok es
    → action_elements op' ≡ ok es'
    → All IsShort es
    → All IsShort es'
    → domain_action ++ framed es ≡ domain_action ++ framed es'
    → SameAction op op'
preimage_identifies op op' es es' w w' h k short short' e =
    let (_, frames) = front_equal domain_action domain_action (framed es) (framed es') refl e in
    let same = framed_injective es es' short short' frames in
    elements-SameAction op op' es' w w' (h ∙ ap ok same) k
