-- ===== src/Legacy.antt =====
-- src/core/legacy.rs: rows whose exact name an older indexer did not record.
use backupsage.Base.{
  ℕ, zero, suc, Bool, ◌&&◌, List, [], ◌∷◌, ◌++◌, ltb, leb, ◌==◌, if◌then◌else◌, reverse, ◌≡◌, refl,
}
use backupsage.Base.Order.{eqb, nat_ord, list_ord}
use backupsage.Store.Flags

-- Whether the flags mark a name that is not the row's exact path.
unfoldable pub name_uncertain : ℕ → Bool
name_uncertain row_flags = Flags.has row_flags Flags.lossy_path

-- A sequence of UTF-8 that was begun: its bytes so far, last first; the range of the next byte; and
-- how many bytes follow that one.
pub data Pending : Type 0 where
  idle : Pending
  need : (seen : List ℕ) (lo hi more : ℕ) → Pending

abbrev replacement : List ℕ
replacement = 0xef ∷ 0xbf ∷ 0xbd ∷ []

abbrev within : ℕ → ℕ → ℕ → Bool
within lo hi b = leb lo b && leb b hi

-- A byte where no sequence is open.
begin : ℕ → List ℕ × Pending
begin b =
    if ltb b 0x80
    then (b ∷ [], idle)
    else if within 0xc2 0xdf b
    then ([], need (b ∷ []) 0x80 0xbf 0)
    else if b == 0xe0
    then ([], need (b ∷ []) 0xa0 0xbf 1)
    else if b == 0xed
    then ([], need (b ∷ []) 0x80 0x9f 1)
    else if within 0xe1 0xef b
    then ([], need (b ∷ []) 0x80 0xbf 1)
    else if b == 0xf0
    then ([], need (b ∷ []) 0x90 0xbf 2)
    else if within 0xf1 0xf3 b
    then ([], need (b ∷ []) 0x80 0xbf 2)
    else if b == 0xf4
    then ([], need (b ∷ []) 0x80 0x8f 2)
    else (replacement, idle)

advance : List ℕ → ℕ → ℕ → List ℕ × Pending
advance seen b zero = (reverse (b ∷ seen), idle)
advance seen b (suc more) = ([], need (b ∷ seen) 0x80 0xbf more)

-- A byte where a sequence is open: it goes on, or is replaced and the byte begins anew.
feed : Pending → ℕ → List ℕ × Pending
unfolding begin advance
feed idle b = begin b
feed (need seen lo hi more) b =
    if within lo hi b then advance seen b more else (replacement ++ (begin b).0, (begin b).1)

finish : Pending → List ℕ
finish idle = []
finish (need _ _ _ _) = replacement

lossy_from : Pending → List ℕ → List ℕ
unfolding feed finish
lossy_from p [] = finish p
lossy_from p (b ∷ bytes) = let (out, next) = feed p b in out ++ lossy_from next bytes

-- `String::from_utf8_lossy`, as bytes.
unfoldable pub from_utf8_lossy : List ℕ → List ℕ
unfolding lossy_from
from_utf8_lossy bytes = lossy_from idle bytes

-- Whether an exact path could be the name behind a lossy stored name.
unfoldable pub could_be : List ℕ → List ℕ → Bool
could_be stored path = eqb stored (from_utf8_lossy path)

lossy_byte : from_utf8_lossy (0x64 ∷ 0xff ∷ []) ≡ 0x64 ∷ replacement
unfolding from_utf8_lossy
lossy_byte = refl

valid_text : from_utf8_lossy (0xc3 ∷ 0xa9 ∷ 0xe2 ∷ 0x82 ∷ []) ≡ 0xc3 ∷ 0xa9 ∷ replacement
unfolding from_utf8_lossy
valid_text = refl
