-- ===== src/Borg/Examples.antt =====
-- An archive, a file in it, and the command line that reads the file.
use backupsage.Base.{◌≡◌, refl, false, some, List, [], ◌∷◌, ◌++◌, any, ok}
use backupsage.Borg
use backupsage.Borg.Lines.{argv_injective}
use backupsage.Borg.Names.{parse_archive_name-eq-ok}
use backupsage.Borg.Paths.{walk, onto, join, parse_file_path-eq-ok}

abbrev monday : Borg.ArchiveName
monday = record { name = Borg.chars "monday" }

abbrev a_file : Borg.RegularFilePath
a_file = record { path = Borg.chars "a/b.txt" }

argv_injective_example : Borg.extract_file monday a_file ≡ Borg.extract_file monday a_file
argv_injective_example =
    argv_injective (Borg.extract_file monday a_file) (Borg.extract_file monday a_file) refl

monday-parsed : Borg.parse_archive_name (Borg.chars "monday") ≡ ok monday
unfolding Borg.parse_archive_name Borg.split backupsage.Base.Order.nat_ord
    backupsage.Base.Order.list_ord backupsage.Base.Order.compare_list
monday-parsed = refl

parse_archive_name-eq-ok_example :
    (monday.name ≡ Borg.chars "monday")
    × (Borg.split b':' (Borg.located monday) ≡ Borg.locator ∷ [] ∷ Borg.chars "monday" ∷ [])
parse_archive_name-eq-ok_example =
    parse_archive_name-eq-ok (Borg.chars "monday") monday monday-parsed

a_file-parsed : Borg.parse_file_path (Borg.chars "a/b.txt") ≡ ok a_file
unfolding Borg.parse_file_path Borg.split backupsage.Base.Order.nat_ord
    backupsage.Base.Order.list_ord backupsage.Base.Order.compare_list
a_file-parsed = refl

parse_file_path-eq-ok_example :
    (a_file.path ≡ Borg.chars "a/b.txt")
    × (join b'/' (Borg.split b'/' (Borg.chars "a/b.txt")) ≡ Borg.chars "a/b.txt")
    × (walk (some []) (Borg.split b'/' (Borg.chars "a/b.txt"))
        ≡ some (onto [] (Borg.split b'/' (Borg.chars "a/b.txt"))))
    × (any Borg.is_control (Borg.chars "a/b.txt") ≡ false)
parse_file_path-eq-ok_example = parse_file_path-eq-ok (Borg.chars "a/b.txt") a_file a_file-parsed
