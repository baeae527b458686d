-- ===== src/CoverageInput/Fits.antt =====
-- src/core/coverage_input.rs: a mapped source is one that the coverage engine accepts.
use backupsage.Base.{
  ◌≡◌, ◌≢◌, refl, inl, inr, arith, ℕ, ◌+◌, ◌≤◌, String, true, false, not, ◌&&◌, Option, none, some,
  is_some, List, [], ◌∷◌, any, count, count-append, Result, ok, err, Bool-cases,
}
use backupsage.Base.Int.{ℤ}
use backupsage.Base.Order.{eqb, int_ord}
use backupsage.Coverage.{Bytes, SourceEvidence, CoverageRow, CoverageSource, Coverage, group}
use backupsage.Coverage
use backupsage.Coverage.Total.{IsConsistent, EvidenceFits, no_hashes_iff}
use backupsage.Floors.{SourceStatus}
use backupsage.Diff.{SnapshotState, SourceCurrency, Entry}
use backupsage.Diff
use backupsage.CoverageInput.Notes.{InputHealth}
use backupsage.CoverageInput.Types.{RegistrySource, Unreadable, LoadedIndex}
use backupsage.CoverageInput.Readable.{OpenSource}
use backupsage.CoverageInput.Mapped.{
  is_unavailable, kind_of_type, evidence_of_state, started, Mapping, map_entries, read_entries,
  is_metadata_only, check_mode, clear_unavailable, shown_present, unless_shown, check_presence,
  push_entry, refuse, row_of, mapping_of, map_source,
}
use backupsage.CoverageInput.Built.{coverage_source}

-- How often a file id occurs among rows, and among entries.
abbrev rows_with : ℤ → List CoverageRow → ℕ
rows_with i rows = count (λ (r : CoverageRow). eqb i r.file_id) rows

abbrev entries_with : ℤ → List Entry → ℕ
entries_with i es = count (λ (e : Entry). eqb i e.file_id) es

-- Each row comes from an entry of its own.
map_entries-rows :
    (i : ℤ) (es : List Entry) (s : Mapping)
    → rows_with i (map_entries es s).rows ≤ rows_with i s.rows + entries_with i es
unfolding map_entries
map_entries-rows i [] s = omega arith
map_entries-rows i (e ∷ es) s =
    elim (kind_of_type e.entry_type)
      as (λ k. rows_with i (next k).rows ≤ rows_with i s.rows + entries_with i (e ∷ es)) [
        | none ↦ omega arith
        | some kind ↦ omega (
          arith,
          map_entries-rows i es (push_entry e kind s),
          count-append (λ (r : CoverageRow). eqb i r.file_id) s.rows (row_of e kind ∷ []),
        )
      ]
  where
    next : Option Coverage.EntryKind → Mapping
    next none = refuse e s
    next (some kind) = map_entries es (push_entry e kind s)

map_entries-evidence :
    (es : List Entry) (s : Mapping)
    → (map_entries es s).evidence ≡ Coverage.no_content_hashes
    → s.evidence ≡ Coverage.no_content_hashes
unfolding map_entries
map_entries-evidence [] s = λ h. h
map_entries-evidence (e ∷ es) s =
    elim (kind_of_type e.entry_type)
      as (λ k.
        (elim k as (λ _. Mapping) [
          | none ↦ refuse e s
          | some kind ↦ map_entries es (push_entry e kind s)
        ]).evidence
          ≡ Coverage.no_content_hashes
        → s.evidence ≡ Coverage.no_content_hashes) [
          | none ↦ λ h. cc
          | some kind ↦ λ h. map_entries-evidence es (push_entry e kind s) h
        ]

-- An unavailable mapping may still have rows; they are cleared later.
record IsMapped (es : List Entry) (s : Mapping) : Type 0 where
  distinct : (i : ℤ) → rows_with i s.rows ≤ entries_with i es
  hash_free :
      s.evidence ≡ Coverage.no_content_hashes
      → any (λ (r : CoverageRow). is_some r.content_hash) s.rows ≡ false

evidence_of_state-hashes :
    (state : SnapshotState) → evidence_of_state state ≢ Coverage.no_content_hashes
evidence_of_state-hashes Diff.complete h = cc
evidence_of_state-hashes Diff.incomplete h = cc
evidence_of_state-hashes Diff.incompatible h = cc
evidence_of_state-hashes Diff.unavailable h = cc

read_entries-hashes :
    (state : SnapshotState) (es : List Entry)
    → (read_entries state es).evidence ≢ Coverage.no_content_hashes
unfolding read_entries
read_entries-hashes state es h = elim (Bool-cases (is_unavailable (evidence_of_state state))) [
  | inl e ↦ evidence_of_state-hashes state (simp e at h)
  | inr e ↦ evidence_of_state-hashes state (map_entries-evidence es (started state) (simp e at h))
]

read_entries-rows :
    (i : ℤ) (state : SnapshotState) (es : List Entry)
    → rows_with i (read_entries state es).rows ≤ entries_with i es
unfolding read_entries
read_entries-rows i state es = elim (Bool-cases (is_unavailable (evidence_of_state state))) [
  | inl e ↦ simp e (omega arith)
  | inr e ↦ simp e (omega (arith, map_entries-rows i es (started state)))
]

check_mode-IsMapped :
    (mode : Option String) (es : List Entry) (s : Mapping)
    → ((i : ℤ) → rows_with i s.rows ≤ entries_with i es)
    → s.evidence ≢ Coverage.no_content_hashes
    → IsMapped es (check_mode mode s)
unfolding check_mode
check_mode-IsMapped mode es s rows n =
    elim (Bool-cases (not (is_unavailable s.evidence) && is_metadata_only mode)) [
      | inl e ↦ elim (Bool-cases (any (λ (r : CoverageRow). is_some r.content_hash) s.rows)) [
        | inl f ↦ record {
          distinct = λ i. simp (e, f) (rows i);
          hash_free = λ h. absurd (ground (arith, e, f, h));
        }
        | inr f ↦ record { distinct = λ i. simp (e, f) (rows i); hash_free = λ h. simp (e, f) refl }
      ]
      | inr e ↦ record {
        distinct = λ i. simp e (rows i);
        hash_free = λ h. absurd (n (simp e at h));
      }
    ]

-- What the engine asks of one source.
record Fits (es : List Entry) (evidence : SourceEvidence) (rows : List CoverageRow) : Type 0 where
  distinct : (i : ℤ) → rows_with i rows ≤ entries_with i es
  evidence_fits : EvidenceFits evidence rows

fits_evidence :
    (evidence : SourceEvidence) (rows : List CoverageRow)
    → (is_unavailable evidence ≡ true → rows ≡ [])
    → (evidence ≡ Coverage.no_content_hashes
        → any (λ (r : CoverageRow). is_some r.content_hash) rows ≡ false)
    → EvidenceFits evidence rows
fits_evidence Coverage.unavailable rows empty free = empty refl
fits_evidence Coverage.no_content_hashes rows empty free = (no_hashes_iff rows).0 (free refl)
fits_evidence Coverage.complete rows empty free = tt
fits_evidence Coverage.incomplete rows empty free = tt
fits_evidence Coverage.unreachable rows empty free = tt

clear_unavailable-Fits :
    (es : List Entry) (s : Mapping)
    → IsMapped es s
    → Fits es (clear_unavailable s).evidence (clear_unavailable s).rows
unfolding clear_unavailable
clear_unavailable-Fits es s h = elim (Bool-cases (is_unavailable s.evidence)) [
  | inl e ↦ record {
    distinct = λ i. simp e (omega arith);
    evidence_fits = simp e (fits_evidence s.evidence [] (λ _. refl) (λ _. refl));
  }
  | inr e ↦ record {
    distinct = λ i. simp e (h.distinct i);
    evidence_fits =
        simp e (fits_evidence s.evidence s.rows (λ u. absurd (ground (arith, e, u))) h.hash_free);
  }
]

unless_shown-Fits :
    (es : List Entry) (shown : Result Unreadable (Unit {0})) (s : Mapping)
    → Fits es s.evidence s.rows
    → Fits es (unless_shown shown s).evidence (unless_shown shown s).rows
unless_shown-Fits es (ok _) s h = h
unless_shown-Fits es (err why) s h = record { distinct = h.distinct; evidence_fits = tt }

check_presence-Fits :
    (open_source : OpenSource) (currency : SourceCurrency) (health : InputHealth) (es : List Entry)
    (s : Mapping)
    → Fits es s.evidence s.rows
    → Fits es
        (check_presence open_source currency health s).evidence
        (check_presence open_source currency health s).rows
unfolding check_presence
check_presence-Fits open_source currency health es s h =
    elim (Bool-cases (is_unavailable s.evidence)) [
      | inl e ↦ simp e h
      | inr e ↦ simp e (unless_shown-Fits es (shown_present open_source currency health) s h)
    ]

-- No two entries of an index share an id.
abbrev pub HasDistinctEntryIds : LoadedIndex → Type 0
HasDistinctEntryIds loaded =
    (i : ℤ) → count (λ (e : Entry). eqb i e.file_id) (loaded.snapshot).entries ≤ 1

pub map_source-IsConsistent :
    (open_source : OpenSource) (entry : RegistrySource) (registry : Option SourceStatus)
    (loaded : LoadedIndex)
    → HasDistinctEntryIds loaded
    → IsConsistent (coverage_source (map_source open_source entry registry loaded))
unfolding map_source mapping_of
map_source-IsConsistent open_source entry registry loaded distinct =
    let info = (loaded.snapshot).info in
    let es = (loaded.snapshot).entries in
    let s = read_entries info.state es in
    let mode = (loaded.health).content_mode in
    let fits =
      check_presence-Fits open_source info.source_currency loaded.health es
        (clear_unavailable (check_mode mode s))
        (clear_unavailable-Fits es (check_mode mode s) (
          check_mode-IsMapped mode es s (λ i. read_entries-rows i info.state es)
            (read_entries-hashes info.state es))) in
    (fits.evidence_fits, λ i. omega (arith, fits.distinct i, distinct i))
