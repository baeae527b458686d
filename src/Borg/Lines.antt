-- ===== src/Borg/Lines.antt =====
-- src/core/borg/operation.rs: a command line tells which operation it is for.
use backupsage.Base.{◌≡◌, refl, ap, ◌++◌}
use backupsage.Borg

same_archive : (a b : Borg.ArchiveName) → Borg.located a ≡ Borg.located b → a ≡ b
same_archive a b e = let names : a.name ≡ b.name = cc e in ap (λ n. record { name = n }) names

same_path :
    (p q : Borg.RegularFilePath) → Borg.chars "pf:" ++ p.path ≡ Borg.chars "pf:" ++ q.path → p ≡ q
same_path p q e = let paths : p.path ≡ q.path = cc e in ap (λ n. record { path = n }) paths

-- Two operations with the same command line are the same operation, on the same archive and file.
pub argv_injective : (a b : Borg.Operation) → Borg.argv a ≡ Borg.argv b → a ≡ b
unfolding Borg.argv
argv_injective Borg.repository_metadata Borg.repository_metadata e = refl
argv_injective Borg.repository_metadata (Borg.archive_entries b) e = cc
argv_injective Borg.repository_metadata (Borg.extract_file b q) e = cc
argv_injective (Borg.archive_entries a) Borg.repository_metadata e = cc
argv_injective (Borg.archive_entries a) (Borg.archive_entries b) e =
    let same : Borg.located a ≡ Borg.located b = cc e in
    ap Borg.archive_entries (same_archive a b same)
argv_injective (Borg.archive_entries a) (Borg.extract_file b q) e = cc
argv_injective (Borg.extract_file a p) Borg.repository_metadata e = cc
argv_injective (Borg.extract_file a p) (Borg.archive_entries b) e = cc
argv_injective (Borg.extract_file a p) (Borg.extract_file b q) e =
    let archives : Borg.located a ≡ Borg.located b = cc e in
    let paths : Borg.chars "pf:" ++ p.path ≡ Borg.chars "pf:" ++ q.path = cc e in
    rw (same_archive a b archives, same_path p q paths) refl
