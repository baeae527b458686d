-- ===== src/Dedup/Cut.antt =====
-- src/core/dedup.rs: the groups that `run_dedup` lists, and what it reports of them.
use backupsage.Base.{◌≡◌, ℕ, ◌+◌, ◌≤◌, Option, none, some, List, [], sum_by, length, drop}
use backupsage.Base.Order.{nat_ord, int_ord, pair_ord, reverse_ord}
use backupsage.Dedup.Types.{Group}
use backupsage.Dedup.Order.{DedupParams, sort_groups}
use backupsage.Dedup.Report.{DedupReport}
use backupsage.Dedup.Run.{Totals}
use backupsage.Dedup.Totals.{reclaimable_of, review_of, duplicates_of}

-- What the limit leaves of the groups: all of them, or no more than it allows.
abbrev pub IsCut : Option ℕ → List Group → List Group → Type 0
IsCut none shown cut = cut ≡ []
IsCut (some limit) shown cut = length shown ≤ limit

abbrev left_out : Option ℕ → List Group → List Group
left_out none gs = []
left_out (some limit) gs = drop limit gs

-- The groups that the limit leaves out.
abbrev pub cut_groups : DedupParams → List Group → List Group
cut_groups p gs = left_out p.limit_groups (sort_groups p.sort gs)

-- The totals of a report count the groups that it lists and those that the limit left out.
pub record IsAccounted (p : DedupParams) (r : DedupReport) (cut : List Group) : Type 0 where
  pub is_cut : IsCut p.limit_groups r.groups cut
  pub listed : r.summary.groups ≡ length r.groups
  pub bytes :
      r.summary.reclaimable_bytes ≡ sum_by reclaimable_of r.groups + sum_by reclaimable_of cut
  pub review : r.summary.review_only_bytes ≡ sum_by review_of r.groups + sum_by review_of cut
  pub files : r.summary.duplicate_files ≡ sum_by duplicates_of r.groups + sum_by duplicates_of cut
