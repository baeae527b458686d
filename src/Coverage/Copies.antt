-- ===== src/Coverage/Copies.antt =====
-- The copies that the groups hold of a content in a source, step by step.
use backupsage.Base.{
  ◌≡◌, refl, ap, ◌∙◌, ◌&&◌, Option, none, some, List, [], ◌∷◌, ◌++◌, filter, map, arith,
  if◌then◌else◌, Bool-cases, inl, inr, append_assoc, append-nil,
}
use backupsage.Base.Int.{ℤ}
use backupsage.Base.Order.{eqb, eqb_iff, int_ord, nat_ord, list_ord}
use backupsage.Base.SortedMap.{lookup, upsert, lookup-upsert}
use backupsage.Coverage.Types.{
  Bytes, CoverageRow, EntryKind, file, hardlink, symlink, RowRef, Exclusion,
}
use backupsage.Coverage.Scan.{
  Building, Groups, Scan, is_trusted, row_ref, or_default, place, add_copy, add_alias, add_unknown,
  link_hash, link_rows, holds_copy, link_row,
}
use backupsage.Coverage.Latest.{is_effective}
use backupsage.Coverage.Described.{is_file, has_hash, is_copy, step, scan_all}

abbrev pub in_building : ℤ → Option Building → Option (List RowRef)
in_building id none = none
in_building id (some b) = lookup id b.copies

-- The copies that the groups hold of a content in a source.
abbrev pub copies_at : Bytes → ℤ → Groups → Option (List RowRef)
copies_at hash id groups = in_building id (lookup hash groups)

abbrev pub extend {ℓ} : {A : Type ℓ} → Option (List A) → List A → Option (List A)
extend old [] = old
extend old (x ∷ xs) = some (or_default [] old ++ x ∷ xs)

pub extend-append {ℓ} :
    {A : Type ℓ} (old : Option (List A)) (xs ys : List A)
    → extend (extend old xs) ys ≡ extend old (xs ++ ys)
extend-append old [] ys = refl
extend-append old (x ∷ xs) [] = rw (append-nil xs)
extend-append old (x ∷ xs) (y ∷ ys) = rw (append_assoc (or_default [] old) (x ∷ xs) (y ∷ ys))

module _ (id : ℤ) (at : ℤ) where
  in_building-add_copy :
      (row : CoverageRow) (old : Option Building)
      → in_building at (some (add_copy id row old))
        ≡ extend (in_building at old) (if eqb at id then row_ref id row ∷ [] else [])
  unfolding add_copy lookup
  in_building-add_copy row none =
      ground (arith, lookup-upsert id at (λ rows. or_default [] rows ++ row_ref id row ∷ []) [])
  in_building-add_copy row (some b) = ground (
    arith,
    lookup-upsert id at (λ rows. or_default [] rows ++ row_ref id row ∷ []) b.copies,
    (eqb_iff at id).0,
  )

  copies_at-add_copy :
      (hash h : Bytes) (row : CoverageRow) (groups : Groups)
      → copies_at hash at (upsert h (add_copy id row) groups)
        ≡ extend
            (copies_at hash at groups)
            (if eqb at id && eqb hash h then row_ref id row ∷ [] else [])
  copies_at-add_copy hash h row groups = ground (
    arith,
    lookup-upsert h hash (add_copy id row) groups,
    in_building-add_copy row (lookup h groups),
    (eqb_iff hash h).0,
  )

  module _ (hash : Bytes) where
    abbrev new_copies : List CoverageRow → CoverageRow → List RowRef
    new_copies all_rows row =
        if eqb at id && is_copy all_rows hash row then row_ref id row ∷ [] else []

    placed_copies : EntryKind → Option Bytes → CoverageRow → List RowRef
    placed_copies entry h row =
        if eqb at id && (is_file entry && (has_hash hash h && is_trusted row))
        then row_ref id row ∷ []
        else []

    copies_at-place :
        (entry : EntryKind) (h : Option Bytes) (row : CoverageRow) (s : Scan)
        → copies_at hash at (place entry h id row s).groups
          ≡ extend (copies_at hash at s.groups) (placed_copies entry h row)
    unfolding place add_unknown placed_copies
    copies_at-place symlink h row s = ground arith
    copies_at-place hardlink h row s = ground arith
    copies_at-place file none row s = ground arith
    copies_at-place file (some h) row s = ground (arith, copies_at-add_copy hash h row s.groups)

    copies_at-step :
        (all_rows : List CoverageRow) (row : CoverageRow) (s : Scan)
        → copies_at hash at (step all_rows id row s).groups
          ≡ extend (copies_at hash at s.groups) (new_copies all_rows row)
    unfolding placed_copies
    copies_at-step all_rows row s = elim (Bool-cases (is_effective all_rows row)) [
      | inl e ↦ rw e (copies_at-place row.entry row.content_hash row s)
      | inr e ↦ rw e (ground arith)
    ]

    abbrev from_source : List CoverageRow → List CoverageRow → List RowRef
    from_source all_rows rows =
        if eqb at id then map (row_ref id) (filter (is_copy all_rows hash) rows) else []

    from_source-cons :
        (all_rows : List CoverageRow) (row : CoverageRow) (rows : List CoverageRow)
        → new_copies all_rows row ++ from_source all_rows rows ≡ from_source all_rows (row ∷ rows)
    from_source-cons all_rows row rows = ground arith

    pub copies_at-scan_all :
        (all_rows rows : List CoverageRow) (s : Scan)
        → copies_at hash at (scan_all all_rows id rows s).groups
          ≡ extend (copies_at hash at s.groups) (from_source all_rows rows)
    unfolding scan_all
    copies_at-scan_all all_rows [] s = ground arith
    copies_at-scan_all all_rows (row ∷ rows) s =
        copies_at-scan_all all_rows rows (step all_rows id row s)
        ∙ ap (λ o. extend o (from_source all_rows rows)) (copies_at-step all_rows row s)
        ∙ extend-append (copies_at hash at s.groups) (new_copies all_rows row)
            (from_source all_rows rows)
        ∙ ap (extend (copies_at hash at s.groups)) (from_source-cons all_rows row rows)

-- Aliases leave the copies alone.
copies_at-add_alias :
    (hash h : Bytes) (at : ℤ) (r : RowRef) (groups : Groups)
    → copies_at hash at (upsert h (add_alias r) groups) ≡ copies_at hash at groups
unfolding lookup
copies_at-add_alias hash h at r groups =
    ground (arith, lookup-upsert h hash (add_alias r) groups, (eqb_iff hash h).0)

pub copies_at-link_rows :
    (hash : Bytes) (at id : ℤ) (rows : List CoverageRow) (s : Groups × List Exclusion)
    → copies_at hash at (link_rows id rows s).0 ≡ copies_at hash at s.0
unfolding link_rows link_hash
copies_at-link_rows hash at id [] s = refl
copies_at-link_rows hash at id (row ∷ rows) s =
    copies_at-link_rows hash at id rows (link_row id row s)
    ∙ copies_at-link_hash row.content_hash (row_ref id row) s
  where
    copies_at-link_hash :
        (h : Option Bytes) (r : RowRef) (t : Groups × List Exclusion)
        → copies_at hash at (link_hash h id r t).0 ≡ copies_at hash at t.0
    copies_at-link_hash none r t = refl
    copies_at-link_hash (some h) r t = elim (Bool-cases (holds_copy id (lookup h t.0))) [
      | inl found ↦ rw found (copies_at-add_alias hash h at r t.0)
      | inr missing ↦ rw missing
    ]
