-- ===== src/Lib.antt =====
-- BackupSage's decisions about backup content: which files are held where, how many good copies
-- there are, what changed between two snapshots, and which duplicates could be reclaimed. The
-- decisions are pure functions of index evidence under src/core; the code around them reads
-- SQLite indexes, walks archives and prints.
--
-- * Store/Flags models the flag bits of src/core/store.rs (Bits has a lemma on them), and Legacy
--   models src/core/legacy.rs: `name_uncertain` and `could_be`, with the lossy decoding of UTF-8 as
--   std documents it.
-- * Coverage models src/core/coverage.rs. Types has its data types, Rows the helpers on one row,
--   Scan the loop of `group` over the sources, and Grouping `presence_in` and the assembly of the
--   result. Partition, Total and Presences hold its theorems; Described, Latest, Copies, Unknown,
--   Scanned and Distinct the lemmas for them.
-- * Floors models src/core/floors.rs, which reads the result of Coverage: Types and Evaluate the
--   code, Verdicts, Totals and Counts the theorems.
-- * Diff models src/core/diff.rs: Types and Rows the data and the tests on entries, Compare the
--   loops of `compare`, Report its sorting, summary and result. Runs, Unique, Visible,
--   Steps and Shown hold lemmas, Totals and Evidence theorems.
-- * Phash models `hamming` and `is_trivial` of src/core/phash.rs; Bands is about the four 16-bit
--   bands that src/core/dedup.rs searches by.
-- * Dedup models src/core/dedup.rs, with the report of src/core/report.rs: Types its rows, Markers
--   `has_conflict_marker`, Keep `pick_keep` and `member_is_actionable`, Assemble the round of
--   `run_dedup` that judges one group, Order the scope and the order of the groups, Near
--   `mih_pairs`, UnionFind `UnionFind` and `near_components`, Gather the near and exact groups,
--   Report the document and its summary, and Run `run_dedup`. Keeper, Connected, Cut and
--   Returns hold the theorems, Best, Reclaim, Safe, Gathered, Totals, Recall, Sound, Linked, Searched,
--   Roots, Forest, Clusters and Parted lemmas.
-- * Plan models src/core/plan.rs up to its test fixtures: Types the document, Hex the coding of
--   names and paths, Suffix and Ids the helpers below `impl Plan`, Roots, Conflicts and Canonical
--   `canonicalize` with its steps and `verify_derived`, Invariants `invariants_hold`, Verify
--   `verify`, and Load `to_canonical_bytes`, `from_canonical_bytes`, `load_from_regular_file` and
--   `digest`. Targets, Legal, AnyOrder, Kept, Determined, Fresh, Stored, Identified, Undo,
--   Joined and Codec hold the theorems, Derived, Framing and Referenced lemmas.
-- * Format models src/core/format.rs, with the open file as a parameter: `fill` makes at most 512
--   rounds, which is enough, since every round but the last reads a byte at least; Sniffed holds
--   the theorem. Textsafe models src/textsafe.rs, with a `char` as its code point.
-- * Borg models src/core/borg/operation.rs: `parse_archive_name` and `parse_file_path` are the
--   constructors `ArchiveName::parse` and `RegularFilePath::parse`. Names, Paths and Lines hold the
--   theorems.
-- * CoverageInput models src/core/coverage_input.rs from the registry on: Notes the notes of
--   src/core/index_read.rs, Types the sources, Readable `source_readable`, Mapped `map_source`, and Built `adhoc_registry`,
--   `build` and the methods of `LoadedCoverage`, which call Coverage and Floors. Trust, Fits and
--   Feeds hold theorems.
-- * CoverageReport models src/core/coverage_report.rs: Scope `resolve` and `select`, Document and
--   Words the data and its words, Filter `PathFilter`, Report the lists of `build_report`, and Run
--   the summary, `build_report` and `run`, which joins CoverageInput, Coverage and Floors.
--   Resolved, Narrowed and Trusted hold the theorems, Collected lemmas.
-- * DiffInput models `row_blocker` and `MoveInference::of` of src/core/diff_input.rs; Inference says
--   how they agree with what Diff does.
-- * Base has lists over the native numbers, results, orders, sorted maps and sorting.
--
-- A `BTreeMap` or `BTreeSet` is a list of entries in key order, and a `HashMap` that is only
-- looked up is the same. `bail!`, `ensure!` and the panic of a missing map key are errors of a
-- result. Sorting is a stable insertion sort. Every loop is a recursion on its list, so few
-- definitions have fuel: `fill` of Format; `decimal` of Plan, whose 11 rounds no `u32` needs;
-- `display_id` of CoverageReport, with 20 for the 19 digits of an `i64`; and `find` of Dedup, whose
-- fuel is one more than the number of near pairs, since each union makes a walk along the parents
-- longer by at most one step. Counts and byte totals are unbounded
-- numbers: the code's `usize` and `u64` sums are not wrapped, except in Plan, where the `u32`
-- casts and the `u64` sums wrap as in a release build. Flag words are the bit patterns of the
-- `i64`s; other `i64`s are only compared. Hashes and paths are lists of bytes. `Path::file_stem`
-- and the lower-casing of a stem are a parameter of Dedup. BLAKE3, JSON, the file system and the
-- live state of the sources are parameters of Plan; the texts of its errors are left out, their
-- kinds are `PlanError`. The queries of the master are a parameter of Dedup, and SQLite's GLOB, the
-- reading of an index and the opening of a source are parameters of CoverageInput and
-- CoverageReport.
--
-- Not modelled: reading and writing SQLite (indexer, store, index_read, diff_input, master,
-- searcher) with the guards around a master file (`load_registry`), the scope query of dedup, the
-- rest of the borg driver, the file-system walk, the output paths, the capture dates, the
-- perceptual hash of an image, JSON output, terminal output, the command line and the web pages.
pub mod Base
pub mod Store
pub mod Legacy
pub mod Coverage
pub mod Floors
pub mod Phash
pub mod Diff
pub mod Dedup
pub mod Plan
pub mod Format
pub mod Textsafe
pub mod Borg
pub mod CoverageInput
pub mod CoverageReport
pub mod DiffInput
