-- ===== src/Coverage/Examples.antt =====
-- Small inputs of the coverage engine, what it makes of them, and its theorems at them.
use backupsage.Base.{
  ℕ, ◌+◌, ◌≡◌, refl, Bool, some, none, Option, List, [], ◌∷◌, ok, ok-of_is_ok, ◌↔◌, All, count, map,
}
use backupsage.Base.Int.{pos}
use backupsage.Base.Order.{eqb, compare_list, nat_ord, int_ord, list_ord, pair_ord}
use backupsage.Base.SortedMap.{lookup, upsert}
use backupsage.Base.Sort.{sort_by, insert_by}
use backupsage.Store.Flags
use backupsage.Legacy.{name_uncertain}
use backupsage.Coverage.Types.{
  Bytes, CoverageRow, CoverageSource, EntryKind, file, hardlink, complete, unavailable, Coverage,
  RowRef,
}
use backupsage.Coverage.Scan.{
  check_evidence, latest_from, is_shadowed, scan_row, scan_rows, scan_source,
}
use backupsage.Coverage.Grouping.{in_id_order, group}
use backupsage.Coverage.Partition.{
  group_partition, copy_rows, alias_rows, unknown_rows, excluded_rows, input_rows,
}
use backupsage.Coverage.Presences.{presence_described, described_entry}
use backupsage.Coverage.Total.{group_ok_iff, HasDistinctIds, IsConsistent}

abbrev row : ℕ → ℕ → EntryKind → ℕ → Option Bytes → ℕ → CoverageRow
row id path kind size hash flags = record {
  file_id = pos id;
  path_raw = path ∷ [];
  entry = kind;
  size = some size;
  content_hash = hash;
  flags = flags;
}

-- The first source holds two rows at one path, a hard link and a file that could not be read; the
-- second one copy; the third is offline.
abbrev sample : List CoverageSource
sample =
    record {
      source_id = pos 2;
      label = b'd' ∷ [];
      evidence = complete;
      rows = row 1 98 file 5 (some (7 ∷ [])) 0 ∷ [];
    }
    ∷ record {
      source_id = pos 1;
      label = b't' ∷ [];
      evidence = complete;
      rows =
          row 1 97 file 5 (some (7 ∷ [])) 0
          ∷ row 2 97 file 5 (some (7 ∷ [])) 0
          ∷ row 3 99 hardlink 0 (some (7 ∷ [])) 0
          ∷ row 4 100 file 9 none 4
          ∷ [];
    }
    ∷ record { source_id = pos 3; label = b'c' ∷ []; evidence = unavailable; rows = [] }
    ∷ []

sample_grouped : (c : Coverage) × (group sample ≡ ok c)
unfolding group sort_by insert_by int_ord scan_source check_evidence latest_from lookup upsert
    scan_rows scan_row is_shadowed name_uncertain Flags.has list_ord compare_list nat_ord
sample_grouped = ok-of_is_ok (group sample) refl

presence_described_example :
    All
      (λ g. g.presence ≡ map (described_entry g.content_hash g.size) (in_id_order sample))
      sample_grouped.0.groups
presence_described_example = presence_described sample sample_grouped.0 sample_grouped.1

abbrev on_tape : RowRef → Bool
on_tape r = eqb r.source_id (pos 1)

group_partition_example :
    count on_tape (copy_rows sample_grouped.0)
      + count on_tape (alias_rows sample_grouped.0)
      + count on_tape (unknown_rows sample_grouped.0)
      + count on_tape (excluded_rows sample_grouped.0)
    ≡ count on_tape (input_rows sample)
group_partition_example = group_partition sample sample_grouped.0 on_tape sample_grouped.1

group_ok_iff_example :
    ((c : Coverage) × (group sample ≡ ok c)) ↔ (HasDistinctIds sample × All IsConsistent sample)
group_ok_iff_example = group_ok_iff sample
