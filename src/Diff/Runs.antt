-- ===== src/Diff/Runs.antt =====
-- src/core/diff.rs: the parts of a comparison that gives a report.
use mathlib.Core.Path.{◌≡◌, refl, sym}
use backupsage.Base.{List, ◌++◌, ok, >>=-eq-ok, ok-injective}
use backupsage.Base.SortedMap.{SortedMap}
use backupsage.Coverage.{Bytes}
use backupsage.Diff.Types.{Entry, Snapshot, before, after, Change, Excluded, DiffReport}
use backupsage.Diff.Compare.{
  Paths, Sides, uncertain_paths, changes_of, visible, excluded_of, unique_hashes,
}
use backupsage.Diff.Report.{compare, report_of, both_compatible, sort_changes, sort_excluded}

abbrev pub sides_of :
    Snapshot → Snapshot → Paths → Paths → SortedMap Bytes Entry → SortedMap Bytes Entry → Sides
sides_of old new left right before_hashes after_hashes = record {
  before_info = old.info;
  after_info = new.info;
  is_compatible = both_compatible old new;
  left = left;
  right = right;
  before_hashes = before_hashes;
  after_hashes = after_hashes;
  left_u = uncertain_paths old;
  right_u = uncertain_paths new;
}

-- What `compare` computed on its way to a report.
pub record Run (old new : Snapshot) (r : DiffReport) : Type 0 where
  pub left : Paths
  pub right : Paths
  pub before_hashes : SortedMap Bytes Entry
  pub after_hashes : SortedMap Bytes Entry
  pub exclusions : List Excluded
  pub changes : List Change
  pub left_eq : visible old ≡ ok left
  pub right_eq : visible new ≡ ok right
  pub before_eq : unique_hashes old ≡ ok before_hashes
  pub after_eq : unique_hashes new ≡ ok after_hashes
  pub changes_eq :
      changes
      ≡ sort_changes (
          changes_of
            (sides_of old new left right before_hashes after_hashes)
            old.entries
            new.entries)
  pub is_report : r ≡ report_of old new (both_compatible old new) changes exclusions

pub compare-Run : (old new : Snapshot) (r : DiffReport) → compare old new ≡ ok r → Run old new r
unfolding compare
compare-Run old new r e =
    let (left, left_eq, e₁) = >>=-eq-ok (visible old) _ e in
    let (right, right_eq, e₂) = >>=-eq-ok (visible new) _ e₁ in
    let (xs, _, e₃) = >>=-eq-ok (excluded_of before left old.entries) _ e₂ in
    let (ys, _, e₄) = >>=-eq-ok (excluded_of after right new.entries) _ e₃ in
    let (bs, before_eq, e₅) = >>=-eq-ok (unique_hashes old) _ e₄ in
    let (hs, after_eq, e₆) = >>=-eq-ok (unique_hashes new) _ e₅ in
    record {
      left = left;
      right = right;
      before_hashes = bs;
      after_hashes = hs;
      exclusions = sort_excluded (xs ++ ys);
      changes =
          sort_changes (changes_of (sides_of old new left right bs hs) old.entries new.entries);
      left_eq = left_eq;
      right_eq = right_eq;
      before_eq = before_eq;
      after_eq = after_eq;
      changes_eq = refl;
      is_report = sym (ok-injective e₆);
    }
