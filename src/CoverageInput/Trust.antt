-- ===== src/CoverageInput/Trust.antt =====
-- src/core/coverage_input.rs: when the rows of a source may count toward a floor.
use backupsage.Base.{
  ◌≡◌, refl, inl, inr, arith, ℕ, ◌≤◌, String, Bool, true, false, Option, none, some, Result, ok,
  err, Bool-cases,
}
use backupsage.Coverage.{Bytes, SourceEvidence}
use backupsage.Coverage
use backupsage.Floors.{SourceStatus, counts_toward_floor}
use backupsage.Floors
use backupsage.Diff.{SourceCurrency}
use backupsage.Diff
use backupsage.CoverageInput.Notes.{InputHealth}
use backupsage.CoverageInput.Types.{RegistrySource, Unreadable, LoadedSource, LoadedIndex}
use backupsage.CoverageInput.Readable.{OpenSource, currency_can_show_presence, source_readable}
use backupsage.CoverageInput.Mapped.{
  distrust, is_unavailable, Mapping, shown_present, unless_shown, check_presence, live_status,
  settle_status, mapping_of, map_source, status_of_currency,
}

-- The currencies that show a source that is there and unchanged.
abbrev pub is_current : SourceCurrency → Bool
is_current Diff.stat_matches = true
is_current Diff.directory_unverified = true
is_current _ = false

abbrev pub recorded_distrust : Option SourceStatus → ℕ
recorded_distrust none = 0
recorded_distrust (some status) = distrust status

settle_status-Lowers :
    (said : Option String) (registry : Option SourceStatus) (live : SourceStatus)
    → (distrust live ≤ distrust (settle_status said registry live).0)
      × (recorded_distrust registry ≤ distrust (settle_status said registry live).0)
unfolding settle_status
settle_status-Lowers said none live = (omega arith, omega arith)
settle_status-Lowers said (some recorded) live = ground arith

counts-distrust : (status : SourceStatus) → counts_toward_floor status ≡ true → distrust status ≤ 1
unfolding counts_toward_floor distrust
counts-distrust Floors.ok h = omega arith
counts-distrust Floors.incomplete h = omega arith
counts-distrust Floors.stale_index h = cc
counts-distrust Floors.db_missing h = cc
counts-distrust Floors.archive_missing h = cc

-- Whether the evidence is of a source that could be used and reached.
abbrev pub is_reached : SourceEvidence → Bool
is_reached Coverage.unavailable = false
is_reached Coverage.unreachable = false
is_reached _ = true

status_of_currency-IsCurrent :
    (currency : SourceCurrency) (evidence : SourceEvidence)
    → distrust (status_of_currency currency evidence) ≤ 1
    → is_current currency ≡ true
unfolding distrust
status_of_currency-IsCurrent Diff.stat_matches evidence h = refl
status_of_currency-IsCurrent Diff.directory_unverified evidence h = refl
status_of_currency-IsCurrent Diff.stale evidence h = absurd (omega arith)
status_of_currency-IsCurrent Diff.not_checked evidence h = absurd (omega arith)
status_of_currency-IsCurrent Diff.offline evidence h = absurd (omega arith)
status_of_currency-IsCurrent Diff.denied evidence h = absurd (omega arith)

unavailable_unreached :
    (evidence : SourceEvidence) → is_unavailable evidence ≡ true → is_reached evidence ≡ false
unavailable_unreached Coverage.unavailable h = refl
unavailable_unreached Coverage.unreachable h = cc
unavailable_unreached Coverage.complete h = cc
unavailable_unreached Coverage.incomplete h = cc
unavailable_unreached Coverage.no_content_hashes h = cc

shown_present-readable :
    (open_source : OpenSource) (currency : SourceCurrency) (health : InputHealth)
    → shown_present open_source currency health ≡ ok tt
    → source_readable open_source health.source health.source_type ≡ ok tt
unfolding shown_present
shown_present-readable open_source currency health h =
    elim (Bool-cases (currency_can_show_presence currency)) [
      | inl e ↦ ground (arith, e, h)
      | inr e ↦ ground (arith, e, h)
    ]

live_status-IsCurrent :
    (currency : SourceCurrency) (evidence : SourceEvidence)
    → distrust (live_status currency evidence) ≤ 1
    → (is_current currency ≡ true) × (is_reached evidence ≡ true)
unfolding live_status distrust
live_status-IsCurrent currency Coverage.unavailable h = absurd (omega arith)
live_status-IsCurrent currency Coverage.unreachable h = absurd (omega arith)
live_status-IsCurrent currency Coverage.complete h =
    (status_of_currency-IsCurrent currency Coverage.complete h, refl)
live_status-IsCurrent currency Coverage.incomplete h =
    (status_of_currency-IsCurrent currency Coverage.incomplete h, refl)
live_status-IsCurrent currency Coverage.no_content_hashes h =
    (status_of_currency-IsCurrent currency Coverage.no_content_hashes h, refl)

unless_shown-shown :
    (shown : Result Unreadable (Unit {0})) (s : Mapping)
    → is_reached (unless_shown shown s).evidence ≡ true
    → shown ≡ ok tt
unless_shown-shown (ok _) s h = refl
unless_shown-shown (err why) s h = cc

check_presence-shown :
    (open_source : OpenSource) (currency : SourceCurrency) (health : InputHealth) (s : Mapping)
    → is_reached (check_presence open_source currency health s).evidence ≡ true
    → shown_present open_source currency health ≡ ok tt
unfolding check_presence
check_presence-shown open_source currency health s h =
    elim (Bool-cases (is_unavailable s.evidence)) [
      | inl e ↦ ground (arith, unavailable_unreached s.evidence e)
      | inr e ↦
          unless_shown-shown (shown_present open_source currency health) s (ground (arith, e, h))
    ]

-- A source whose rows may count: its index could be used, its currency shows it there and
-- unchanged, it was opened for reading, and the registry recorded no worse than an incomplete index.
pub record IsTrusted (open_source : OpenSource) (registry : Option SourceStatus)
    (loaded : LoadedIndex) (s : LoadedSource) : Type 0 where
  pub reached : is_reached s.evidence ≡ true
  pub current : is_current ((loaded.snapshot).info).source_currency ≡ true
  pub readable :
      source_readable open_source (loaded.health).source (loaded.health).source_type ≡ ok tt
  pub recorded : recorded_distrust registry ≤ 1

-- When a loaded source has a status that counts toward a floor, its index could be used, the
-- source's currency is that it matches its record or is a directory, the source was opened for
-- reading, and the registry recorded no lower trust than an incomplete index.
pub map_source_trust :
    (open_source : OpenSource) (entry : RegistrySource) (registry : Option SourceStatus)
    (loaded : LoadedIndex)
    → counts_toward_floor (map_source open_source entry registry loaded).status ≡ true
    → IsTrusted open_source registry loaded (map_source open_source entry registry loaded)
unfolding map_source mapping_of
map_source_trust open_source entry registry loaded h =
    let currency = ((loaded.snapshot).info).source_currency in
    let s = mapping_of open_source loaded in
    let live = live_status currency s.evidence in
    let low = counts-distrust (settle_status entry.registry_status registry live).0 h in
    let (above_live, above_recorded) = settle_status-Lowers entry.registry_status registry live in
    let (current, reached) = live_status-IsCurrent currency s.evidence (omega arith) in
    let shown = check_presence-shown open_source currency loaded.health _ reached in
    record {
      reached = reached;
      current = current;
      readable = shown_present-readable open_source currency loaded.health shown;
      recorded = omega arith;
    }
