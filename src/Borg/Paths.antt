-- ===== src/Borg/Paths.antt =====
-- src/core/borg/operation.rs: an accepted path stays below where it starts.
use backupsage.Base.{
  ◌≡◌, refl, ap, subst, arith, ℕ, ◌==◌, false, ◌||◌, Option, none, some, List, [], ◌∷◌, ◌++◌, any,
  if◌then◌else◌, ok, Bool-cases, inl, inr,
}
use backupsage.Base.Order.{eqb, nat_ord, list_ord}
use backupsage.Borg

abbrev pub up : List Borg.Chars → Option (List Borg.Chars)
up [] = none
up (part ∷ stack) = some stack

-- Walking along the parts of a path: a name is put on the stack of the directories passed, `..`
-- takes the last one off, and an empty part or `.` changes nothing. Above the start there is nothing.
abbrev pub step : Borg.Chars → List Borg.Chars → Option (List Borg.Chars)
step part stack =
    if Borg.is_nil part || eqb part (Borg.chars ".")
    then some stack
    else if eqb part (Borg.chars "..")
    then up stack
    else some (part ∷ stack)

abbrev pub walk : Option (List Borg.Chars) → List Borg.Chars → Option (List Borg.Chars)
walk at [] = at
walk none (part ∷ parts) = none
walk (some stack) (part ∷ parts) = walk (step part stack) parts

-- The parts on the stack, the last on top.
abbrev pub onto : List Borg.Chars → List Borg.Chars → List Borg.Chars
onto stack [] = stack
onto stack (part ∷ parts) = onto (part ∷ stack) parts

walk_names :
    (parts stack : List Borg.Chars)
    → any Borg.is_special parts ≡ false
    → walk (some stack) parts ≡ some (onto stack parts)
walk_names [] stack h = refl
walk_names (part ∷ parts) stack h =
    let on : step part stack ≡ some (part ∷ stack) = ground (arith, h) in
    rw on (walk_names parts (part ∷ stack) (ground (arith, h)))

abbrev pub join_more : ℕ → List Borg.Chars → Borg.Chars
join_more sep [] = []
join_more sep (part ∷ parts) = sep ∷ part ++ join_more sep parts

-- `join` of the parts
abbrev pub join : ℕ → List Borg.Chars → Borg.Chars
join sep [] = []
join sep (part ∷ parts) = part ++ join_more sep parts

split-filled :
    (sep : ℕ) (cs : Borg.Chars)
    → (part : Borg.Chars) × (parts : List Borg.Chars) × (Borg.split sep cs ≡ part ∷ parts)
unfolding Borg.split
split-filled sep [] = ([], [], refl)
split-filled sep (c ∷ cs) =
    let (part, parts, e) = split-filled sep cs in
    elim (Bool-cases (c == sep)) [
      | inl same ↦ ([], part ∷ parts, rw (same, e) refl)
      | inr other ↦ (c ∷ part, parts, rw (other, e) refl)
    ]

join-split : (sep : ℕ) (cs : Borg.Chars) → join sep (Borg.split sep cs) ≡ cs
unfolding Borg.split
join-split sep [] = refl
join-split sep (c ∷ cs) =
    let (part, parts, e) = split-filled sep cs in
    let rest : part ++ join_more sep parts ≡ cs =
      subst (λ ps. join sep ps ≡ cs) e (join-split sep cs) in
    elim (Bool-cases (c == sep)) [
      | inl same ↦
          let is_sep : c ≡ sep = ground (arith, same) in rw (same, e) (rw (is_sep, rest) refl)
      | inr other ↦ rw (other, e) (ap (λ t. c ∷ t) rest)
    ]

-- The path of an accepted file is the given text, which its parts at the slashes make up; a walk
-- along the parts passes just these and never leaves the directory where it starts; and there is no
-- control character in the text.
pub parse_file_path-eq-ok :
    (value : Borg.Chars) (p : Borg.RegularFilePath)
    → Borg.parse_file_path value ≡ ok p
    → (p.path ≡ value)
      × (join b'/' (Borg.split b'/' value) ≡ value)
      × (walk (some []) (Borg.split b'/' value) ≡ some (onto [] (Borg.split b'/' value)))
      × (any Borg.is_control value ≡ false)
unfolding Borg.parse_file_path
parse_file_path-eq-ok value p h =
    let names : any Borg.is_special (Borg.split b'/' value) ≡ false = ground (arith, h) in
    (
      ground (arith, h),
      join-split b'/' value,
      walk_names (Borg.split b'/' value) [] names,
      ground (arith, h),
    )
