-- ===== src/Format/Sniffed.antt =====
-- src/core/format.rs: the file's first 512 bytes tell as much as all of it, however they are read.
use backupsage.Base.{
  ◌≡◌, refl, sym, ap, ◌∙◌, arith, ℕ, zero, suc, ◌+◌, ◌-◌, ◌≤◌, ltb, leb, false, [], ◌∷◌, ◌++◌,
  append-nil, append_assoc, length, length-append, take, drop, if◌then◌else◌, Result, ok,
  Bool-cases, inl, inr,
}
use backupsage.Base.Order.{nat_ord, list_ord}
use backupsage.Coverage.{Bytes}
use backupsage.Format

-- A read gives the next bytes, no more than were asked for, and none only at the end.
pub record IsRead {S : Type 0} (file : Format.Reader S) (content : S → Bytes) (n : ℕ) (s : S)
    : Type 0 where
  pub chunk : Bytes
  pub next : S
  pub read_eq : file.read (suc n) s ≡ ok (chunk, next)
  pub content_eq : content s ≡ chunk ++ content next
  pub short : length chunk ≤ suc n
  pub ended : chunk ≡ [] → content next ≡ []

take-take : (n k : ℕ) (l : Bytes) → n ≤ k → take n (take k l) ≡ take n l
take-take zero k l h = refl
take-take (suc n) zero l h = ground (arith, h)
take-take (suc n) (suc k) [] h = refl
take-take (suc n) (suc k) (b ∷ l) h = ap (λ t. b ∷ t) (take-take n k l (omega (arith, h)))

take_nil : (n : ℕ) → take {A = ℕ} n [] ≡ []
take_nil zero = refl
take_nil (suc n) = refl

drop-take : (m n : ℕ) (l : Bytes) → drop m (take (m + n) l) ≡ take n (drop m l)
drop-take zero n l = ap (λ k. take k l) (omega arith)
drop-take (suc m) n [] = ap (drop (suc m)) (take_nil (suc m + n)) ∙ sym (take_nil n)
drop-take (suc m) n (b ∷ l) =
    let sum : suc m + n ≡ suc (m + n) = omega arith in
    ap (λ k. drop (suc m) (take k (b ∷ l))) sum ∙ drop-take m n l

take_all : (n : ℕ) (l : Bytes) → length l ≤ n → take n l ≡ l
take_all zero [] h = refl
take_all zero (b ∷ l) h = ground (arith, h)
take_all (suc n) [] h = refl
take_all (suc n) (b ∷ l) h = ap (λ t. b ∷ t) (take_all n l (omega (arith, h)))

take-append :
    (n : ℕ) (xs ys : Bytes) → length xs ≤ n → take n (xs ++ ys) ≡ xs ++ take (n - length xs) ys
take-append n [] ys h = ap (λ k. take k ys) (omega arith)
take-append zero (x ∷ xs) ys h = ground (arith, h)
take-append (suc n) (x ∷ xs) ys h =
    ap (λ t. x ∷ t)
      (take-append n xs ys (omega (arith, h)) ∙ ap (λ k. xs ++ take k ys) (omega arith))

long_enough : (n k : ℕ) (l : Bytes) → n ≤ k → leb n (length (take k l)) ≡ leb n (length l)
long_enough zero k l h = ground arith
long_enough (suc n) zero l h = ground (arith, h)
long_enough (suc n) (suc k) [] h = refl
long_enough (suc n) (suc k) (b ∷ l) h = ground (arith, h, long_enough n k l)

-- Nothing after the first 512 bytes matters.
detect-take : (l : Bytes) → Format.detect (take 512 l) ≡ Format.detect l
unfolding Format.detect
detect-take l =
    let tar : take 5 (drop 257 (take 512 l)) ≡ take 5 (drop 257 l) =
      ap (take 5) (drop-take 257 255 l) ∙ take-take 5 255 (drop 257 l) (omega arith) in
    rw
      (
        take-take 4 512 l (omega arith),
        take-take 2 512 l (omega arith),
        take-take 6 512 l (omega arith),
        take-take 3 512 l (omega arith),
        long_enough 262 512 l (omega arith),
        tar,
      )
      refl

length_pos : (chunk : Bytes) → Format.is_nil chunk ≡ false → 1 ≤ length chunk
length_pos [] h = cc
length_pos (b ∷ more) h = omega arith

module _ {S : Type 0} (file : Format.Reader S) (content : S → Bytes) where
  filled_up :
      (filled c : Bytes)
      → length filled ≡ 512
      → ◌≡◌ {A = Result Format.FormatError Bytes} (ok filled) (ok (take 512 (filled ++ c)))
  filled_up filled c h =
      let full : 512 - length filled ≡ 0 = omega (arith, h) in
      ap ok (
        sym (
          take-append 512 filled c (omega (arith, h))
          ∙ ap (λ k. filled ++ take k c) full
          ∙ append-nil filled))

  -- One round, with what the later rounds give.
  fill_round :
      (rounds : ℕ) (filled chunk : Bytes) (next : S) (c : Bytes)
      → c ≡ chunk ++ content next
      → length filled + length chunk ≤ 512
      → (chunk ≡ [] → content next ≡ [])
      → (Format.is_nil chunk ≡ false
          → Format.fill file rounds (filled ++ chunk) next
            ≡ ok (take 512 ((filled ++ chunk) ++ content next)))
      → (if Format.is_nil chunk then ok filled else Format.fill file rounds (filled ++ chunk) next)
        ≡ ok (take 512 (filled ++ c))
  fill_round rounds filled [] next c e h ended later =
      let nothing : c ≡ [] = e ∙ ended refl in
      rw nothing
        (ap ok (sym (ap (take 512) (append-nil filled) ∙ take_all 512 filled (omega (arith, h)))))
  fill_round rounds filled (b ∷ more) next c e h ended later =
      later refl
      ∙ ap (λ t. ok (take 512 t))
          (append_assoc filled (b ∷ more) (content next) ∙ ap (λ t. filled ++ t) (sym e))

  fill-eq-take :
      (rounds : ℕ) (filled : Bytes) (s : S)
      → ((n : ℕ) (t : S) → IsRead file content n t)
      → 512 ≤ rounds + length filled
      → length filled ≤ 512
      → Format.fill file rounds filled s ≡ ok (take 512 (filled ++ content s))
  unfolding Format.fill
  fill-eq-take zero filled s reads h k = filled_up filled (content s) (omega (arith, h, k))
  fill-eq-take (suc rounds) filled s reads h k = elim (Bool-cases (ltb (length filled) 512)) [
    | inr e ↦ rw e (filled_up filled (content s) (ground (arith, e, k)))
    | inl e ↦
        let n = 511 - length filled in
        let r = reads n s in
        let asked : 512 - length filled ≡ suc n = ground (arith, e) in
        let later = λ (some_read : Format.is_nil r.chunk ≡ false).
          fill-eq-take rounds (filled ++ r.chunk) r.next reads
            (ground (arith, e, h, length-append filled r.chunk, length_pos r.chunk some_read))
            (ground (arith, e, r.short, length-append filled r.chunk)) in
        rw (e, asked, r.read_eq)
          (fill_round rounds filled r.chunk r.next (content s) r.content_eq
            (ground (arith, e, r.short)) r.ended later)
  ]

  -- Where every read gives the next bytes of a file, no more than were asked for and none only at
  -- the end, `detect_file` says of the file what `detect` says of all its bytes, however the reads cut them.
  pub detect_file_lem :
      (s : S)
      → ((n : ℕ) (t : S) → IsRead file content n t)
      → Format.detect_file file (ok s) ≡ Format.detect (content s)
  unfolding Format.detect_file
  detect_file_lem s reads =
      rw (fill-eq-take 512 [] s reads (omega arith) (omega arith)) (detect-take (content s))
