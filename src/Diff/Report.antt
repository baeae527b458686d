-- ===== src/Diff/Report.antt =====
-- src/core/diff.rs: the sorting, the summary and the result of `compare`.
use backupsage.Base.{
  ℕ, ◌+◌, ltb, Bool, not, ◌&&◌, ◌||◌, List, [], ◌∷◌, ◌++◌, length, if◌then◌else◌, Result, ok, ◌>>=◌,
}
use backupsage.Base.Int.{ℤ}
use backupsage.Base.Order.{nat_ord, int_ord, list_ord, pair_ord, option_ord}
use backupsage.Base.Sort.{sort_by}
use backupsage.Coverage.{Bytes}
use backupsage.Diff.Types.{
  SnapshotState, complete, incomplete, unavailable, incompatible, Snapshot, Side, before, after,
  ChangeKind, added, removed, moved, byte_identical, metadata_only_changed, content_changed,
  inconclusive, Change, Excluded, Summary, DiffReport, DiffError,
}
use backupsage.Diff.Rows.{is_complete, is_unavailable, compatible}
use backupsage.Diff.Compare.{
  uncertain_paths, visible, excluded_of, unique_hashes, changes_of, change_key,
}

unfoldable pub sort_changes : List Change → List Change
unfolding nat_ord int_ord list_ord pair_ord option_ord
sort_changes = sort_by change_key

-- The derived order of `Side`: `Before` is less than `After`.
abbrev pub side_rank : Side → ℕ
side_rank before = 0
side_rank after = 1

abbrev pub excluded_key : Excluded → ℕ × (Bytes × ℤ)
excluded_key x = (side_rank x.side, (x.entry.path_bytes, x.entry.file_id))

unfoldable pub sort_excluded : List Excluded → List Excluded
unfolding nat_ord int_ord list_ord pair_ord
sort_excluded = sort_by excluded_key

abbrev pub no_changes : ℕ → Summary
no_changes n = record {
  added = 0;
  removed = 0;
  moved = 0;
  byte_identical = 0;
  metadata_only_changed = 0;
  content_changed = 0;
  inconclusive = 0;
  excluded = n;
}

-- The counter that a change of this kind steps.
abbrev pub note_kind : ChangeKind → Summary → Summary
note_kind added s = record s { added = 1 + s.added }
note_kind removed s = record s { removed = 1 + s.removed }
note_kind moved s = record s { moved = 1 + s.moved }
note_kind byte_identical s = record s { byte_identical = 1 + s.byte_identical }
note_kind metadata_only_changed s = record s { metadata_only_changed = 1 + s.metadata_only_changed }
note_kind content_changed s = record s { content_changed = 1 + s.content_changed }
note_kind inconclusive s = record s { inconclusive = 1 + s.inconclusive }

-- The loop that counts the changes.
unfoldable pub summarise : Summary → List Change → Summary
summarise s [] = s
summarise s (c ∷ changes) = summarise (note_kind c.kind s) changes

-- `comparison_state`, from the two states, the compatibility and the inconclusive changes.
unfoldable pub comparison_state_of : SnapshotState → SnapshotState → Bool → ℕ → SnapshotState
comparison_state_of old new is_compatible inconclusives =
    if is_unavailable old || is_unavailable new
    then unavailable
    else if not is_compatible
    then incompatible
    else if not (is_complete old) || (not (is_complete new) || ltb 0 inconclusives)
    then incomplete
    else complete

unfoldable pub report_of : Snapshot → Snapshot → Bool → List Change → List Excluded → DiffReport
report_of old new is_compatible changes excluded =
    let summary = summarise (no_changes (length excluded)) changes in
    record {
      version = 1;
      before = old.info;
      after = new.info;
      comparison_state =
          comparison_state_of old.info.state new.info.state is_compatible summary.inconclusive;
      changes = changes;
      excluded = excluded;
      summary = summary;
    }

abbrev pub both_compatible : Snapshot → Snapshot → Bool
both_compatible old new = compatible old.info && compatible new.info

unfoldable pub compare : Snapshot → Snapshot → Result DiffError DiffReport
compare old new = do
  left ← visible old
  right ← visible new
  old_excluded ← excluded_of before left old.entries
  new_excluded ← excluded_of after right new.entries
  before_hashes ← unique_hashes old
  after_hashes ← unique_hashes new
  ok (
      report_of old new (both_compatible old new)
        (sort_changes (
          changes_of
            (record {
              before_info = old.info;
              after_info = new.info;
              is_compatible = both_compatible old new;
              left = left;
              right = right;
              before_hashes = before_hashes;
              after_hashes = after_hashes;
              left_u = uncertain_paths old;
              right_u = uncertain_paths new;
            })
            old.entries new.entries))
        (sort_excluded (old_excluded ++ new_excluded)))
