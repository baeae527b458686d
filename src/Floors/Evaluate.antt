-- ===== src/Floors/Evaluate.antt =====
-- src/core/floors.rs: `evaluate`.
use backupsage.Base.{
  ℕ, ◌+◌, ◌==◌, ltb, leb, Bool, true, false, not, ◌&&◌, if◌then◌else◌, Option, none, some, is_some,
  List, [], ◌∷◌, count, length, sum_by, Result, ok, err, ◌>>=◌, ◌>>◌, bail_if, traverse,
}
use backupsage.Base.Int.{ℤ}
use backupsage.Base.Order.{int_ord}
use backupsage.Base.SortedMap.{SortedMap, lookup, upsert}
use backupsage.Coverage.{
  Bytes, RowRef, Presence, present, absent, unknown, SourcePresence, SourceInfo, ContentGroup,
  ExclusionReason, shadowed, symlink_entry, unmatched_hardlink, Coverage,
}
use backupsage.Floors.Types.{
  SourceStatus, counts_toward_floor, FloorParams, Verdict, meets_floor, below_floor, inconclusive,
  FloorCopy, GroupFloor, GroupExclusionReason, empty_content, below_min_size, GroupExclusion,
  FloorSource, FloorSummary, FloorReport, FloorError, floor_is_zero, missing_map_key,
  status_repeated, source_without_status, status_of_unknown_source, protected_unknown_source,
  protected_repeated,
}

-- The loop over `statuses`.
unfoldable pub collect_statuses :
    SortedMap ℤ SourceStatus
    → List (ℤ × SourceStatus)
    → Result FloorError (SortedMap ℤ SourceStatus)
collect_statuses m [] = ok m
collect_statuses m ((id, status) ∷ rest) =
    let later = collect_statuses (upsert id (λ _. status) m) rest in
    if is_some (lookup id m) then err (status_repeated id) else later

-- `coverage.sources` by id; a later label replaces an earlier one.
unfoldable pub labels_of : SortedMap ℤ Bytes → List SourceInfo → SortedMap ℤ Bytes
labels_of m [] = m
labels_of m (s ∷ sources) = labels_of (upsert s.source_id (λ _. s.label) m) sources

-- The first key of one map that the other lacks.
unfoldable pub first_missing : {V W : Type 0} → SortedMap ℤ V → SortedMap ℤ W → Option ℤ
first_missing [] m = none
first_missing ((id, _) ∷ rest) m =
    let later = first_missing rest m in if is_some (lookup id m) then later else some id

abbrev pub fail_if_some : Option ℤ → (ℤ → FloorError) → Result FloorError (Unit {0})
fail_if_some none e = ok tt
fail_if_some (some id) e = err (e id)

-- The loop over `protected`.
unfoldable pub collect_protected :
    SortedMap ℤ Bytes → SortedMap ℤ (Unit {0}) → List ℤ → Result FloorError (SortedMap ℤ (Unit {0}))
collect_protected labels ids [] = ok ids
collect_protected labels ids (id ∷ rest) =
    let later = collect_protected labels (upsert id (λ _. tt) ids) rest in
    if is_some (lookup id labels)
    then (if is_some (lookup id ids) then err (protected_repeated id) else later)
    else err (protected_unknown_source id)

-- What the closures of `evaluate` capture.
pub record Designations : Type 0 where
  pub status_of : SortedMap ℤ SourceStatus
  pub labels : SortedMap ℤ Bytes
  pub protected_ids : SortedMap ℤ (Unit {0})

-- `map[&key]`
abbrev pub index : {V : Type 0} → SortedMap ℤ V → ℤ → Result FloorError V
index m id = elim (lookup id m) [ none ↦ err missing_map_key | some v ↦ ok v ]

abbrev pub is_protected : Designations → ℤ → Bool
is_protected d id = is_some (lookup id d.protected_ids)

unfoldable pub floor_copy : Designations → RowRef → Result FloorError FloorCopy
floor_copy d r = do
  status ← index d.status_of r.source_id
  label ← index d.labels r.source_id
  ok (record {
    row = r;
    source_label = label;
    status = status;
    counts = counts_toward_floor status;
    protected = is_protected d r.source_id;
  })

-- Whether a group is out of scope. An unknown length is never excluded by size.
unfoldable pub out_of_scope : FloorParams → Option ℕ → Option GroupExclusionReason
out_of_scope p none = none
out_of_scope p (some n) =
    if n == 0 && not p.include_empty
    then some empty_content
    else if ltb n p.min_size
    then some below_min_size
    else none

pub record Tally : Type 0 where
  pub trusted : ℕ
  pub untrusted : ℕ
  pub unknown_sources : ℕ
  pub protected : ℕ

abbrev pub tally_trusted : Bool → Tally → Tally
tally_trusted guarded t = record t {
  trusted = t.trusted + 1;
  protected = t.protected + (if guarded then 1 else 0);
}

abbrev pub tally_present : Bool → Bool → Tally → Tally
tally_present counted guarded t =
    if counted then tally_trusted guarded t else record t { untrusted = t.untrusted + 1 }

-- One round of the loop over a group's presence.
unfoldable pub tally_one : Designations → Tally → ℤ → Presence → Result FloorError Tally
tally_one d t id (present _) = do
  status ← index d.status_of id
  ok (tally_present (counts_toward_floor status) (is_protected d id) t)
tally_one d t id (unknown _) = ok (record t { unknown_sources = t.unknown_sources + 1 })
tally_one d t id absent = ok t

unfoldable pub tally : Designations → Tally → List SourcePresence → Result FloorError Tally
tally d t [] = ok t
tally d t (p ∷ ps) = tally_one d t p.source_id p.presence >>= λ t'. tally d t' ps

abbrev pub no_tally : Tally
no_tally = record { trusted = 0; untrusted = 0; unknown_sources = 0; protected = 0 }

unfoldable pub verdict_of : ℕ → Tally → Verdict
verdict_of min_copies t =
    if leb min_copies t.trusted
    then meets_floor
    else if ltb 0 t.unknown_sources
    then inconclusive
    else below_floor

abbrev pub floor_of : FloorParams → ContentGroup → Tally → List FloorCopy → GroupFloor
floor_of p g t copies = record {
  content_hash = g.content_hash;
  size = g.size;
  verdict = verdict_of p.min_copies t;
  only_copy = t.trusted == 1 && t.unknown_sources == 0;
  trusted_replicas = t.trusted;
  untrusted_replicas = t.untrusted;
  protected_replicas = t.protected;
  unknown_sources = t.unknown_sources;
  copies = copies;
  aliases = g.aliases;
}

unfoldable pub judge_group :
    Designations → FloorParams → ContentGroup → Result FloorError GroupFloor
judge_group d p g = do
  t ← tally d no_tally g.presence
  copies ← traverse (floor_copy d) g.copies
  ok (floor_of p g t copies)

unfoldable pub exclude_group :
    Designations → GroupExclusionReason → ContentGroup → Result FloorError GroupExclusion
exclude_group d reason g = do
  copies ← traverse (floor_copy d) g.copies
  ok (record {
    content_hash = g.content_hash;
    size = g.size;
    reason = reason;
    copies = copies;
    aliases = g.aliases;
  })

-- One round of the loop over the groups: a group in scope, or one out of it.
pub data Judgement : Type 0 where
  in_scope : GroupFloor → Judgement
  left_out : GroupExclusion → Judgement

unfoldable pub judge_by :
    Option GroupExclusionReason
    → Designations
    → FloorParams
    → ContentGroup
    → Result FloorError Judgement
judge_by (some reason) d p g = do e ← exclude_group d reason g; ok (left_out e)
judge_by none d p g = do f ← judge_group d p g; ok (in_scope f)

abbrev pub judge : Designations → FloorParams → ContentGroup → Result FloorError Judgement
judge d p g = judge_by (out_of_scope p g.size) d p g

abbrev pub floors_of : List Judgement → List GroupFloor
floors_of [] = []
floors_of (in_scope f ∷ rest) = f ∷ floors_of rest
floors_of (left_out e ∷ rest) = floors_of rest

abbrev pub exclusions_of : List Judgement → List GroupExclusion
exclusions_of [] = []
exclusions_of (in_scope f ∷ rest) = exclusions_of rest
exclusions_of (left_out e ∷ rest) = e ∷ exclusions_of rest

abbrev pub same_verdict : Verdict → Verdict → Bool
same_verdict meets_floor meets_floor = true
same_verdict below_floor below_floor = true
same_verdict inconclusive inconclusive = true
same_verdict _ _ = false

abbrev pub same_reason : ExclusionReason → ExclusionReason → Bool
same_reason shadowed shadowed = true
same_reason symlink_entry symlink_entry = true
same_reason unmatched_hardlink unmatched_hardlink = true
same_reason _ _ = false

unfoldable pub summarize :
    FloorParams → Coverage → List GroupFloor → List GroupExclusion → FloorSummary
summarize p c groups excluded = record {
  min_copies = p.min_copies;
  groups = length groups;
  meets = count (λ g. same_verdict g.verdict meets_floor) groups;
  below = count (λ g. same_verdict g.verdict below_floor) groups;
  unclear = count (λ g. same_verdict g.verdict inconclusive) groups;
  only_copy = count (λ g. g.only_copy) groups;
  protected_replicas = sum_by (λ g. g.protected_replicas) groups;
  excluded_groups = length excluded;
  shadowed_rows = count (λ e. same_reason e.reason shadowed) c.exclusions;
  symlink_rows = count (λ e. same_reason e.reason symlink_entry) c.exclusions;
  unmatched_hardlink_rows = count (λ e. same_reason e.reason unmatched_hardlink) c.exclusions;
  hardlink_aliases =
      sum_by (λ g. length g.aliases) groups + sum_by (λ g. length g.aliases) excluded;
  unknown_content_rows = length c.unknown_content;
}

unfoldable pub floor_source : Designations → ℤ × Bytes → Result FloorError FloorSource
floor_source d (id, label) = do
  status ← index d.status_of id
  ok (record {
    source_id = id;
    label = label;
    status = status;
    counts = counts_toward_floor status;
    protected = is_protected d id;
  })

-- The checks of `evaluate`, and the maps that they build.
unfoldable pub designate :
    List SourceInfo → List (ℤ × SourceStatus) → List ℤ → Result FloorError Designations
designate sources statuses protected = do
  status_of ← collect_statuses [] statuses
  fail_if_some (first_missing (labels_of [] sources) status_of) source_without_status
  fail_if_some (first_missing status_of (labels_of [] sources)) status_of_unknown_source
  protected_ids ← collect_protected (labels_of [] sources) [] protected
  ok (record {
    status_of = status_of;
    labels = labels_of [] sources;
    protected_ids = protected_ids;
  })

unfoldable pub evaluate :
    Coverage → List (ℤ × SourceStatus) → List ℤ → FloorParams → Result FloorError FloorReport
evaluate c statuses protected p = do
  bail_if (p.min_copies == 0) floor_is_zero
  d ← designate c.sources statuses protected
  judged ← traverse (judge d p) c.groups
  sources ← traverse (floor_source d) d.labels
  ok (record {
    sources = sources;
    groups = floors_of judged;
    excluded_groups = exclusions_of judged;
    excluded_rows = c.exclusions;
    unknown_content = c.unknown_content;
    summary = summarize p c (floors_of judged) (exclusions_of judged);
  })
