-- ===== src/DiffInput.antt =====
-- src/core/diff_input.rs: whether moves could be looked for, and if not, why.
use backupsage.Base.{
  ℕ, suc, ◌+◌, Bool, true, false, Option, none, some, is_some, List, [], ◌∷◌, ◌++◌, map,
  if◌then◌else◌,
}
use backupsage.Base.Order.{nat_ord}
use backupsage.Base.SortedMap.{SortedMap, upsert}
use backupsage.Store.Flags
use backupsage.Coverage.{Bytes}
use backupsage.Diff.{SnapshotState, EntryType, Entry, Snapshot, Side}
use backupsage.Diff
pub mod Inference
mod Examples

pub data MoveBlockerCause : Type 0 where
  snapshot_unavailable snapshot_incompatible snapshot_incomplete hardlink symlink
        unsupported_entry_type read_error pax_unparsed unsupported_sparse not_hashed :
      MoveBlockerCause

pub record MoveBlocker : Type 0 where
  pub side : Side
  pub cause : MoveBlockerCause
  pub rows : Option ℕ

pub record MoveInference : Type 0 where
  pub enabled : Bool
  pub blockers : List MoveBlocker

-- A file's blocker, by its flags and its hash.
abbrev pub file_blocker : ℕ → Option Bytes → Option MoveBlockerCause
file_blocker flags hash =
    if Flags.has flags Flags.read_error
    then some read_error
    else if Flags.has flags Flags.pax_unparsed
    then some pax_unparsed
    else if is_some hash
    then none
    else if Flags.has flags Flags.sparse
    then some unsupported_sparse
    else some not_hashed

abbrev pub blocker_by : EntryType → ℕ → Option Bytes → Option MoveBlockerCause
blocker_by Diff.hardlink flags hash = some hardlink
blocker_by Diff.symlink flags hash = some symlink
blocker_by Diff.unsupported flags hash = some unsupported_entry_type
blocker_by Diff.file flags hash = file_blocker flags hash

unfoldable pub row_blocker : Entry → Option MoveBlockerCause
row_blocker e = blocker_by e.entry_type e.flags e.content_hash

-- The place of a cause in the derived order, which is the order of the declaration.
abbrev pub cause_rank : MoveBlockerCause → ℕ
cause_rank snapshot_unavailable = 0
cause_rank snapshot_incompatible = 1
cause_rank snapshot_incomplete = 2
cause_rank hardlink = 3
cause_rank symlink = 4
cause_rank unsupported_entry_type = 5
cause_rank read_error = 6
cause_rank pax_unparsed = 7
cause_rank unsupported_sparse = 8
cause_rank not_hashed = 9

-- `whole`
abbrev pub whole_blocker : SnapshotState → Option MoveBlockerCause
whole_blocker Diff.complete = none
whole_blocker Diff.incomplete = some snapshot_incomplete
whole_blocker Diff.unavailable = some snapshot_unavailable
whole_blocker Diff.incompatible = some snapshot_incompatible

abbrev pub whole_blockers : Side → Option MoveBlockerCause → List MoveBlocker
whole_blockers side none = []
whole_blockers side (some cause) = record { side = side; cause = cause; rows = none } ∷ []

-- The counts by rank, each with its cause.
abbrev pub Counts : Type 0
Counts = SortedMap ℕ (MoveBlockerCause × ℕ)

abbrev count_row : MoveBlockerCause → Option (MoveBlockerCause × ℕ) → MoveBlockerCause × ℕ
count_row cause none = (cause, 1)
count_row cause (some (_, n)) = (cause, n + 1)

abbrev pub count_option : Option MoveBlockerCause → Counts → Counts
count_option none counts = counts
count_option (some cause) counts = upsert (cause_rank cause) (count_row cause) counts

unfoldable pub count_blockers : Counts → List Entry → Counts
count_blockers counts [] = counts
count_blockers counts (e ∷ entries) = count_blockers (count_option (row_blocker e) counts) entries

unfoldable pub side_blockers : Side → Snapshot → List MoveBlocker
side_blockers side s =
    whole_blockers side (whole_blocker s.info.state)
    ++ map
        (λ (x : ℕ × (MoveBlockerCause × ℕ)). record {
          side = side;
          cause = x.1.0;
          rows = some x.1.1;
        })
        (count_blockers [] s.entries)

abbrev pub has_none : List MoveBlocker → Bool
has_none [] = true
has_none (_ ∷ _) = false

-- `MoveInference::of`
unfoldable pub inference_of : Snapshot → Snapshot → MoveInference
inference_of old new =
    let blockers = side_blockers Diff.before old ++ side_blockers Diff.after new in
    record { enabled = has_none blockers; blockers = blockers }
