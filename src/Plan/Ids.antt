-- ===== src/Plan/Ids.antt =====
-- src/core/plan.rs: the preimages of the derived ids. `blake3` is the hash function of the crate
-- of that name.
use Prim.Native.Nat.{ℕ}
use backupsage.Base.{
  zero, suc, ◌/◌, ◌%◌, List, [], ◌∷◌, ◌++◌, take, length, flat_map, Result, ok, ◌>>=◌, traverse,
}
use backupsage.Base.Int.{ℤ}
use backupsage.Coverage.{Bytes}
use backupsage.Diff.{to_hex}
use backupsage.Dedup.{as_u64}
use backupsage.Plan.Types.{
  Op, mkdir, move, extract, SourceRef, DestPath, MatchKind, exact, near, Group, GroupMember,
  EntryKey,
}
use backupsage.Plan.Hex.{PlanError, unhex}

-- `to_le_bytes`
unfoldable pub le_bytes : ℕ → ℕ → Bytes
le_bytes zero n = []
le_bytes (suc k) n = n % 256 ∷ le_bytes k (n / 256)

unfoldable pub le8 : ℕ → Bytes
le8 n = le_bytes 8 n

unfoldable pub le8_i64 : ℤ → Bytes
le8_i64 n = le_bytes 8 (as_u64 n)

unfoldable pub framed : List Bytes → Bytes
framed [] = []
framed (e ∷ elements) = le8 (length e) ++ (e ++ framed elements)

-- `Op::tag`
unfoldable pub tag : Op → Bytes
tag (mkdir dest) = b'm' ∷ b'k' ∷ b'd' ∷ b'i' ∷ b'r' ∷ []
tag (move source dest conflict) = b'm' ∷ b'o' ∷ b'v' ∷ b'e' ∷ []
tag (extract source dest conflict) = b'e' ∷ b'x' ∷ b't' ∷ b'r' ∷ b'a' ∷ b'c' ∷ b't' ∷ []
tag (Op.quarantine source dest group_id slot) =
    b'q' ∷ b'u' ∷ b'a' ∷ b'r' ∷ b'a' ∷ b'n' ∷ b't' ∷ b'i' ∷ b'n' ∷ b'e' ∷ []

unfoldable pub dest_of : Op → DestPath
dest_of (mkdir dest) = dest
dest_of (move source dest conflict) = dest
dest_of (extract source dest conflict) = dest
dest_of (Op.quarantine source dest group_id slot) = dest

-- What identifies an action besides its tag and its destination.
unfoldable pub trailer : Op → List Bytes
trailer (mkdir dest) = []
trailer (move s dest conflict) = le8 s.root_id ∷ le8_i64 s.file_id ∷ s.content_hash ∷ []
trailer (extract s dest conflict) = le8 s.root_id ∷ le8_i64 s.file_id ∷ s.content_hash ∷ []
trailer (Op.quarantine s dest group_id slot) =
    le8 s.root_id ∷ le8_i64 s.file_id ∷ s.content_hash ∷ group_id ∷ slot ∷ []

-- The `elements` of `compute_action_id`.
unfoldable pub action_elements : Op → Result PlanError (List Bytes)
action_elements op = do
  parts ← traverse unhex (dest_of op).parts_raw
  ok (tag op ∷ le8 (dest_of op).root_id ∷ parts ++ trailer op)

abbrev pub entry_key : SourceRef → EntryKey
entry_key s = (s.root_id, s.file_id)

abbrev member_elements : GroupMember → List Bytes
member_elements m = le8 m.entry.root_id ∷ le8_i64 m.entry.file_id ∷ []

abbrev match_name : MatchKind → Bytes
match_name exact = b'e' ∷ b'x' ∷ b'a' ∷ b'c' ∷ b't' ∷ []
match_name near = b'n' ∷ b'e' ∷ b'a' ∷ b'r' ∷ []

unfoldable pub group_elements : Group → List Bytes
group_elements g =
    match_name g.match_kind
    ∷ le8 g.keeper.entry.root_id
    ∷ le8_i64 g.keeper.entry.file_id
    ∷ flat_map member_elements g.members

unfoldable pub slot_elements : Bytes → SourceRef → List Bytes
slot_elements group_id s = group_id ∷ le8 s.root_id ∷ le8_i64 s.file_id ∷ s.content_hash ∷ []

-- "backupsage.plan.v1."
abbrev domain : Bytes
domain =
    b'b' ∷ b'a' ∷ b'c' ∷ b'k' ∷ b'u' ∷ b'p' ∷ b's' ∷ b'a' ∷ b'g' ∷ b'e' ∷ b'.' ∷ b'p' ∷ b'l' ∷ b'a'
    ∷ b'n' ∷ b'.' ∷ b'v' ∷ b'1' ∷ b'.' ∷ []

abbrev pub domain_action : Bytes
domain_action = domain ++ (b'a' ∷ b'c' ∷ b't' ∷ b'i' ∷ b'o' ∷ b'n' ∷ 0 ∷ [])

abbrev pub domain_group : Bytes
domain_group = domain ++ (b'g' ∷ b'r' ∷ b'o' ∷ b'u' ∷ b'p' ∷ 0 ∷ [])

abbrev pub domain_slot : Bytes
domain_slot = domain ++ (b's' ∷ b'l' ∷ b'o' ∷ b't' ∷ 0 ∷ [])

module _ (blake3 : Bytes → Bytes) where
  unfoldable pub compute_action_id : Op → Result PlanError Bytes
  compute_action_id op = do
    elements ← action_elements op
    ok (to_hex (take 16 (blake3 (domain_action ++ framed elements))))

  unfoldable pub compute_group_id : Group → Bytes
  compute_group_id g = to_hex (take 8 (blake3 (domain_group ++ framed (group_elements g))))

  unfoldable pub compute_slot : Bytes → SourceRef → Bytes
  compute_slot group_id s =
      to_hex (take 4 (blake3 (domain_slot ++ framed (slot_elements group_id s))))
