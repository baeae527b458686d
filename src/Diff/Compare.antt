-- ===== src/Diff/Compare.antt =====
-- src/core/diff.rs: `visible`, `excluded`, `unique_hashes` and `compare`.
use backupsage.Base.{
  ◌==◌, Bool, true, false, not, ◌&&◌, ◌||◌, Option, none, some, is_some, List, [], ◌∷◌, ◌++◌, map,
  any, filter, if◌then◌else◌, Result, ok, err, ◌>>=◌, ◌>>◌, bail_if,
}
use backupsage.Base.Int.{ℤ, pos}
use backupsage.Base.Order.{eqb, lessb, nat_ord, int_ord, list_ord, pair_ord, option_ord}
use backupsage.Base.SortedMap.{SortedMap, lookup, upsert, values}
use backupsage.Legacy.{could_be}
use backupsage.Coverage.{Bytes}
use backupsage.Diff.Types.{
  SnapshotInfo, Entry, Snapshot, Side, ChangeKind, added, removed, moved, inconclusive, Reason,
  unique_content_correspondence, incompatible_snapshots, shadowed_path, legacy_name_uncertain,
  ReportEntry, report_entry, Change, Excluded, DiffError, unavailable_but_carries_rows,
  invalid_file_id, missing_map_key, missing_hash,
}
use backupsage.Diff.Rows.{
  is_complete, is_unavailable, trusted_hash, same_path, uncertain_name, absence,
}

abbrev pub Paths : Type 0
Paths = SortedMap Bytes Entry

-- `Uncertain::of`: the stored names of a snapshot's lossy rows.
abbrev pub uncertain_paths : Snapshot → List Bytes
uncertain_paths s = map (λ e. e.path) (filter uncertain_name s.entries)

-- `Uncertain::could_hold`
unfoldable pub could_hold : List Bytes → Bytes → Bool
could_hold stored path = any (λ s. could_be s path) stored

abbrev pub newer : Entry → Option Entry → Entry
newer e none = e
newer e (some winner) = if lessb winner.file_id e.file_id then e else winner

abbrev pub note_visible : Entry → Paths → Paths
note_visible e paths = if uncertain_name e then paths else upsert e.path (newer e) paths

-- The loop of `visible`.
unfoldable pub visible_from : SortedMap ℤ (Unit {0}) → Paths → List Entry → Result DiffError Paths
visible_from ids paths [] = ok paths
visible_from ids paths (e ∷ entries) =
    let rest = visible_from (upsert e.file_id (λ _. tt) ids) (note_visible e paths) entries in
    if lessb (pos 0) e.file_id && not (is_some (lookup e.file_id ids))
    then rest
    else err invalid_file_id

abbrev pub carries_rows : List Entry → Bool
carries_rows [] = false
carries_rows (_ ∷ _) = true

unfoldable pub visible : Snapshot → Result DiffError Paths
visible s = do
  bail_if (is_unavailable s.info.state && carries_rows s.entries) unavailable_but_carries_rows
  visible_from [] [] s.entries

abbrev pub excluded_entry : Side → Entry → Excluded
excluded_entry side e = record { side = side; reason = shadowed_path; entry = report_entry e }

-- `paths[e.path].file_id != e.file_id`, for an entry with a certain name.
unfoldable pub is_shadowed : Paths → Entry → Result DiffError Bool
is_shadowed paths e = if uncertain_name e then ok false else elim (lookup e.path paths) [
  | none ↦ err missing_map_key
  | some winner ↦ ok (not (eqb winner.file_id e.file_id))
]

unfoldable pub excluded_of : Side → Paths → List Entry → Result DiffError (List Excluded)
excluded_of side paths [] = ok []
excluded_of side paths (e ∷ entries) = do
  hidden ← is_shadowed paths e
  rest ← excluded_of side paths entries
  ok (if hidden then excluded_entry side e ∷ rest else rest)

abbrev pub add_to : Entry → Option (List Entry) → List Entry
add_to e none = e ∷ []
add_to e (some es) = es ++ e ∷ []

-- The loop that groups the entries by their hashes.
unfoldable pub by_hash :
    SortedMap Bytes (List Entry) → List Entry → Result DiffError (SortedMap Bytes (List Entry))
by_hash m [] = ok m
by_hash m (e ∷ entries) = elim (trusted_hash e) [
  | none ↦ err missing_hash
  | some hash ↦ by_hash (upsert hash (add_to e) m) entries
]

unfoldable pub singletons : {K : Type 0} → SortedMap K (List Entry) → SortedMap K Entry
singletons [] = []
singletons ((hash, e ∷ []) ∷ rest) = (hash, e) ∷ singletons rest
singletons ((hash, []) ∷ rest) = singletons rest
singletons ((hash, _ ∷ _ ∷ _) ∷ rest) = singletons rest

-- The entries whose content no other entry of the snapshot can share.
unfoldable pub unique_hashes : Snapshot → Result DiffError (SortedMap Bytes Entry)
unique_hashes s =
    if not (is_complete s.info.state) || any (λ e. not (is_some (trusted_hash e))) s.entries
    then ok []
    else (by_hash [] s.entries >>= λ m. ok (singletons m))

abbrev pub report_option : Option Entry → Option ReportEntry
report_option none = none
report_option (some e) = some (report_entry e)

unfoldable pub change : ChangeKind × Reason → Option Entry → Option Entry → Change
change verdict old new = record {
  kind = verdict.0;
  reason = verdict.1;
  before = report_option old;
  after = report_option new;
}

-- What the loops of `compare` read.
pub record Sides : Type 0 where
  pub before_info : SnapshotInfo
  pub after_info : SnapshotInfo
  pub is_compatible : Bool
  pub left : Paths
  pub right : Paths
  pub before_hashes : SortedMap Bytes Entry
  pub after_hashes : SortedMap Bytes Entry
  pub left_u : List Bytes
  pub right_u : List Bytes

-- The filter on the candidate of a move.
unfoldable pub can_move : Sides → Entry → Entry → Bool
can_move c old new =
    not (is_some (lookup new.path c.left))
    && (not (could_hold c.left_u new.path)
        && (elim (lookup new.path c.right) [ none ↦ false | some e ↦ eqb e.file_id new.file_id ]
            && old.size == new.size))

abbrev pub keep_if : (Entry → Bool) → Option Entry → Option Entry
keep_if p none = none
keep_if p (some e) = if p e then some e else none

abbrev pub move_by : Option Bytes → Sides → Entry → Option Entry
move_by none c old = none
move_by (some hash) c old =
    if not c.is_compatible || (old.size == 0 || not (is_some (lookup hash c.before_hashes)))
    then none
    else keep_if (can_move c old) (lookup hash c.after_hashes)

-- `moved_to`
unfoldable pub moved_to : Sides → Entry → Option Entry
moved_to c old = move_by (trusted_hash old) c old

-- A change, and the entry of the later snapshot that it uses up.
abbrev pub Step : Type 0
Step = Change × Option ℤ

abbrev pub matched : Sides → Entry → Entry → Step
matched c old new = (
  change (if c.is_compatible then same_path old new else (inconclusive, incompatible_snapshots))
      (some old) (some new),
  some new.file_id,
)

abbrev pub moved_or_gone : Sides → Entry → Option Entry → Step
moved_or_gone c old (some new) =
    (change (moved, unique_content_correspondence) (some old) (some new), some new.file_id)
moved_or_gone c old none =
    (change (absence c.after_info c.is_compatible removed) (some old) none, none)

abbrev pub without_peer : Sides → Bytes → Entry → Step
without_peer c path old =
    if could_hold c.right_u path
    then (change (inconclusive, legacy_name_uncertain) (some old) none, none)
    else moved_or_gone c old (moved_to c old)

-- One round of the loop over `left`.
unfoldable pub left_step : Sides → Bytes × Entry → Step
left_step c (path, old) = elim (lookup path c.right) [
  | some new ↦ matched c old new
  | none ↦ without_peer c path old
]

abbrev pub used_ids : List Step → List ℤ
used_ids [] = []
used_ids ((_, none) ∷ rest) = used_ids rest
used_ids ((_, some id) ∷ rest) = id ∷ used_ids rest

-- One round of the loop over the values of `right` that are not used.
unfoldable pub right_step : Sides → Entry → Change
right_step c new =
    if could_hold c.left_u new.path
    then change (inconclusive, legacy_name_uncertain) none (some new)
    else change (absence c.before_info c.is_compatible added) none (some new)

abbrev pub unused : List ℤ → Entry → Bool
unused used e = not (any (eqb e.file_id) used)

-- The change of an entry whose name is not known.
abbrev pub lost_before : Entry → Change
lost_before e = change (inconclusive, legacy_name_uncertain) (some e) none

abbrev pub lost_after : Entry → Change
lost_after e = change (inconclusive, legacy_name_uncertain) none (some e)

-- The changes, before they are sorted.
unfoldable pub changes_of : Sides → List Entry → List Entry → List Change
changes_of c old_entries new_entries =
    let steps = map (left_step c) c.left in
    map (λ (s : Step). s.0) steps
    ++ (map (right_step c) (filter (unused (used_ids steps)) (values c.right))
        ++ (map lost_before (filter uncertain_name old_entries)
            ++ map lost_after (filter uncertain_name new_entries)))

abbrev pub id_option : Option ReportEntry → Option ℤ
id_option none = none
id_option (some e) = some e.file_id

-- `change_key`. A change without both sides does not arise.
abbrev pub change_key : Change → Bytes × (ℤ × Option ℤ)
change_key c = key_by c.before c.after
  where
    key_by : Option ReportEntry → Option ReportEntry → Bytes × (ℤ × Option ℤ)
    key_by (some e) new = (e.path_bytes, (e.file_id, id_option new))
    key_by none (some e) = (e.path_bytes, (e.file_id, some e.file_id))
    key_by none none = ([], (pos 0, none))
