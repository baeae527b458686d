-- ===== src/Dedup/Order.antt =====
-- src/core/dedup.rs: the parameters of `run_dedup`, the scope, and the order of its groups.
use text.Mathlib.Text.{◌==◌ as str_eq}
use backupsage.Base.{
  ℕ, zero, suc, ◌+◌, ◌^◌, ◌-◌, String, Bool, true, false, ◌||◌, Option, none, some, List, [], ◌∷◌,
  length, filter, map, if◌then◌else◌, Result, ok, err, ◌>>=◌,
}
use backupsage.Base.Int.{ℤ, pos}
use backupsage.Base.Order.{Reverse, lessb, nat_ord, int_ord, pair_ord, reverse_ord}
use backupsage.Base.Sort.{sort_by}
use backupsage.Dedup.Types.{Member, Group}
use backupsage.Dedup.Keep.{get_or, i64_min}

pub data SortKey : Type 0 where
  wasted by_count newest : SortKey

pub record DedupParams : Type 0 where
  pub exact : Bool
  pub near : Bool
  pub threshold : ℕ
  pub kind : Option String
  pub exts : List String
  pub min_size : ℕ
  pub path_glob : Option String
  pub archives : List String
  pub across_only : Bool
  pub include_empty : Bool
  pub sort : SortKey
  pub limit_groups : Option ℕ
  pub bucket_cap : ℕ

-- `DedupParams::default`
abbrev pub default_dedup : DedupParams
default_dedup = record {
  exact = true;
  near = true;
  threshold = 3;
  kind = none;
  exts = [];
  min_size = 1;
  path_glob = none;
  archives = [];
  across_only = false;
  include_empty = false;
  sort = wasted;
  limit_groups = none;
  bucket_cap = 10000;
}

-- The fields of a registered archive that are read here, its id also as text.
pub record ArchiveRow : Type 0 where
  pub archive_id : ℤ
  pub id_text : String
  pub label : String
  pub source_path : String
  pub source_type : String
  pub status : String
  pub content_mode : String

pub data ScopeError : Type 0 where
  no_archive ambiguous : String → ScopeError

abbrev is_wanted : String → ArchiveRow → Bool
is_wanted w a = str_eq a.id_text w || (str_eq a.label w || str_eq a.source_path w)

abbrev only_one : String → List ArchiveRow → Result ScopeError ℤ
only_one w [] = err (no_archive w)
only_one w (a ∷ []) = ok a.archive_id
only_one w (_ ∷ _ ∷ _) = err (ambiguous w)

unfoldable pub resolve_each : List ArchiveRow → List String → Result ScopeError (List ℤ)
resolve_each registry [] = ok []
resolve_each registry (w ∷ wanted) = do
  id ← only_one w (filter (is_wanted w) registry)
  ids ← resolve_each registry wanted
  ok (id ∷ ids)

-- `resolve_scope`
unfoldable pub resolve_scope : List ArchiveRow → List String → Result ScopeError (List ℤ)
resolve_scope registry [] = ok (map (λ (a : ArchiveRow). a.archive_id) registry)
resolve_scope registry (w ∷ wanted) = resolve_each registry (w ∷ wanted)

abbrev smallest : (ℤ × ℤ) → List Member → ℤ × ℤ
smallest best [] = best
smallest best (m ∷ ms) =
    smallest (if lessb (m.archive_id, m.file_id) best then (m.archive_id, m.file_id) else best) ms

-- The smallest id in the group; a group without members comes last.
abbrev first_of : List Member → ℤ × ℤ
first_of [] = (pos (2 ^ 63 - 1), pos (2 ^ 63 - 1))
first_of (m ∷ ms) = smallest (m.archive_id, m.file_id) ms

unfoldable pub first_key : Group → ℤ × ℤ
first_key g = first_of g.members

-- The best time of the kept member.
unfoldable pub kept_time : List Member → ℤ
kept_time [] = i64_min
kept_time (m ∷ ms) = if m.keep then get_or i64_min m.best_ts_unix else kept_time ms

unfoldable pub sort_groups : SortKey → List Group → List Group
sort_groups wasted =
    sort_by {K = Reverse ℕ × (ℤ × ℤ)}
      (λ (g : Group). (record { value = g.reclaimable_bytes }, first_key g))
sort_groups by_count =
    sort_by {K = Reverse ℕ × (ℤ × ℤ)}
      (λ (g : Group). (record { value = length g.members }, first_key g))
sort_groups newest =
    sort_by {K = Reverse ℤ × (ℤ × ℤ)}
      (λ (g : Group). (record { value = kept_time g.members }, first_key g))

abbrev pub take : ℕ → List Group → List Group
take zero gs = []
take (suc n) [] = []
take (suc n) (g ∷ gs) = g ∷ take n gs

abbrev pub truncated : Option ℕ → List Group → List Group
truncated none gs = gs
truncated (some limit) gs = take limit gs

abbrev pub numbered : ℕ → List Group → List Group
numbered i [] = []
numbered i (g ∷ gs) = record g { group_id = i } ∷ numbered (i + 1) gs

-- The groups as the report lists them: sorted, cut to the limit, and numbered from 1.
unfoldable pub finish_groups : DedupParams → List Group → List Group
finish_groups p gs = numbered 1 (truncated p.limit_groups (sort_groups p.sort gs))
