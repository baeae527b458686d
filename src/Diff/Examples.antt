-- ===== src/Diff/Examples.antt =====
-- Two small snapshots and their comparison.
use backupsage.Base.{
  ◌≡◌, refl, ◌↔◌, ℕ, true, none, some, [], ◌∷◌, length, count, All, ok, ok-of_is_ok,
}
use backupsage.Base.Int.{pos}
use backupsage.Base.Order.{int_ord, list_ord, compare_list, nat_ord}
use backupsage.Base.SortedMap.{lookup, upsert}
use backupsage.Store.Flags
use backupsage.Legacy.{name_uncertain}
use backupsage.Diff.Rows.{trusted_hash}
use backupsage.Diff.Compare.{
  visible, visible_from, excluded_of, is_shadowed, unique_hashes, by_hash,
}
use backupsage.Diff.Types.{
  complete, SnapshotInfo, stat_matches, file, Entry, Snapshot, moved, inconclusive, DiffReport,
}
use backupsage.Diff.Report.{compare, both_compatible}
use backupsage.Diff.Totals.{same_kind, counter, summary_counts, compare_complete_iff}
use backupsage.Diff.Shown.{IsShown}
use backupsage.Diff.Evidence.{compare-IsShown}

abbrev entry : ℕ → ℕ → ℕ → Entry
entry id path hash = record {
  file_id = pos id;
  path = path ∷ [];
  entry_type = file;
  link_target = none;
  size = 5;
  mtime_unix = some (pos 100);
  mode = some 420;
  content_hash = some (hash ∷ []);
  flags = 0;
  kind = some "text";
}

abbrev info : SnapshotInfo
info = record {
  index_uuid = some "u";
  schema_version = some (pos 3);
  hash_algo = some "blake3";
  state = complete;
  source_currency = stat_matches;
}

-- `a` stays, `b` moves to `d`, and `c` goes.
abbrev pub earlier : Snapshot
earlier = record { info = info; entries = entry 1 97 1 ∷ entry 2 98 2 ∷ entry 3 99 3 ∷ [] }

abbrev pub later : Snapshot
later = record { info = info; entries = entry 1 97 1 ∷ entry 2 100 2 ∷ [] }

pub compared : (r : DiffReport) × (compare earlier later ≡ ok r)
unfolding compare visible visible_from int_ord lookup upsert excluded_of is_shadowed name_uncertain
    Flags.has list_ord compare_list nat_ord unique_hashes trusted_hash by_hash
compared = ok-of_is_ok (compare earlier later) refl

compare-IsShown_example : All (λ c. IsShown earlier later c c.kind) compared.0.changes
compare-IsShown_example = compare-IsShown earlier later compared.0 compared.1

compare_complete_iff_example : (compared.0.comparison_state ≡ complete) ↔ (
    (earlier.info.state ≡ complete)
    × (later.info.state ≡ complete)
    × (both_compatible earlier later ≡ true)
    × (count (λ c. same_kind inconclusive c.kind) compared.0.changes ≡ 0))
compare_complete_iff_example = compare_complete_iff earlier later compared.0 compared.1

summary_counts_example :
    (counter moved compared.0.summary ≡ count (λ c. same_kind moved c.kind) compared.0.changes)
    × (compared.0.summary.excluded ≡ length compared.0.excluded)
summary_counts_example = summary_counts earlier later compared.0 moved compared.1
