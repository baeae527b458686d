-- ===== src/Dedup/Assemble.antt =====
-- src/core/dedup.rs: the part of `run_dedup` that judges one group.
use text.Mathlib.Text.{◌==◌ as str_eq}
use backupsage.Base.{
  ℕ, zero, suc, ◌+◌, ◌-◌, ◌/◌, ◌%◌, ◌^◌, ◌==◌, ltb, leb, String, Bool, true, not, ◌&&◌, ◌||◌,
  Option, none, some, List, [], ◌∷◌, ◌++◌, map, count, any, if◌then◌else◌,
}
use backupsage.Base.Int.{ℤ, pos, negsuc}
use backupsage.Base.Order.{eqb, nat_ord, int_ord, pair_ord}
use backupsage.Base.Sort.{sort_by}
use backupsage.Coverage.{Bytes}
use backupsage.Diff.{to_hex, hex_digit}
use backupsage.Phash.{hamming}
use backupsage.Dedup.Types.{Row, Member, Group, shadowed, sparse, is_hardlink, best_ts}
use backupsage.Dedup.Markers.{Chars}
use backupsage.Dedup.Keep.{Indexed, pick_keep, member_is_actionable}

-- `p as u64`
unfoldable pub as_u64 : ℤ → ℕ
as_u64 (pos n) = n % 2 ^ 64
as_u64 (negsuc n) = 2 ^ 64 - 1 - n % 2 ^ 64

-- `{:016x}`
abbrev hex_digits : ℕ → ℕ → Bytes
hex_digits zero x = []
hex_digits (suc n) x = hex_digits n (x / 16) ++ hex_digit (x % 16) ∷ []

abbrev hex_phash : Option ℤ → Option Bytes
hex_phash none = none
hex_phash (some p) = some (hex_digits 16 (as_u64 p))

abbrev path_hex : Option Bytes → Option Bytes
path_hex none = none
path_hex (some raw) = some (to_hex raw)

abbrev hash_hex : Option Bytes → Option Bytes
hash_hex none = none
hash_hex (some h) = some (b'b' ∷ b'3' ∷ b':' ∷ to_hex h)

abbrev phash_distance : String → Option ℤ → Option ℤ → Option ℕ
phash_distance kind (some a) (some b) =
    if str_eq kind "near"
    then some (hamming (as_u64 a) (as_u64 b))
    else if str_eq kind "exact"
    then some 0
    else none
phash_distance kind none b = if str_eq kind "exact" then some 0 else none
phash_distance kind a none = if str_eq kind "exact" then some 0 else none

-- The measured distance of a member to the kept one.
unfoldable pub distance_to : String → Row → Row → Option ℕ
distance_to kind keep r = phash_distance kind keep.phash r.phash

-- What the assembly of a group knows: the kind, the threshold, the kept member and the reason.
pub record Keeper : Type 0 where
  pub kind : String
  pub threshold : ℕ
  pub keep : Indexed
  pub reason : String

abbrev pub is_keep : Keeper → Indexed → Bool
is_keep k (i, _) = i == k.keep.0

unfoldable pub is_actionable : Keeper → Indexed → Bool
is_actionable k (i, r) =
    member_is_actionable k.kind (i == k.keep.0) (shadowed r) (is_hardlink r)
      (distance_to k.kind k.keep.1 r) k.threshold

unfoldable pub member_of : Keeper → Indexed → Member
member_of k (i, r) = record {
  archive_id = r.archive_id;
  archive_label = r.archive_label;
  file_id = r.file_id;
  path = r.path;
  path_bytes = path_hex r.path_raw;
  kind = r.kind;
  size = r.size;
  content_hash = hash_hex r.content_hash;
  phash = hex_phash r.phash;
  mtime_unix = r.mtime_unix;
  exif_unix = r.exif_unix;
  best_ts_unix = (best_ts r).0;
  best_ts_source = (best_ts r).1;
  width = r.img_w;
  height = r.img_h;
  hamming_to_keep = distance_to k.kind k.keep.1 r;
  keep = i == k.keep.0;
  keep_reason = if i == k.keep.0 then some k.reason else none;
  actionable = is_actionable k (i, r);
  shadowed = shadowed r;
  sparse = sparse r;
  hardlink_of = if is_hardlink r then some r.path else none;
}

-- The counters that the loop over the members adds to.
pub record Tally : Type 0 where
  pub max_dist : ℕ
  pub reclaimable : ℕ
  pub review_only : ℕ
  pub shadowed_bytes : ℕ
  pub duplicate_files : ℕ
  pub transitive_only_files : ℕ

abbrev pub empty_tally : Tally
empty_tally = record {
  max_dist = 0;
  reclaimable = 0;
  review_only = 0;
  shadowed_bytes = 0;
  duplicate_files = 0;
  transitive_only_files = 0;
}

abbrev larger : ℕ → Option ℕ → ℕ
larger m none = m
larger m (some d) = if ltb m d then d else m

-- The counters after one member.
unfoldable pub tally_member : Keeper → Indexed → Tally → Tally
tally_member k (i, r) t =
    let seen = record t { max_dist = larger t.max_dist (distance_to k.kind k.keep.1 r) } in
    if i == k.keep.0
    then seen
    else if shadowed r
    then record seen { shadowed_bytes = t.shadowed_bytes + r.size }
    else if is_hardlink r
    then seen
    else if is_actionable k (i, r)
    then record seen {
      reclaimable = t.reclaimable + r.size;
      duplicate_files = t.duplicate_files + 1;
    }
    else record seen {
      review_only = t.review_only + r.size;
      transitive_only_files = t.transitive_only_files + 1;
    }

unfoldable pub tally : Keeper → Tally → List Indexed → Tally
tally k t [] = t
tally k t (e ∷ es) = tally k (tally_member k e t) es

unfoldable pub by_id : List Indexed → List Indexed
unfolding pair_ord int_ord
by_id = sort_by {K = ℤ × ℤ} (λ (e : Indexed). ((e.1).archive_id, (e.1).file_id))

abbrev pub keep_first_key : Member → ℕ × (ℤ × ℤ)
keep_first_key m = ((if m.keep then 0 else 1), (m.archive_id, m.file_id))

unfoldable pub keep_first : List Member → List Member
unfolding pair_ord int_ord nat_ord
keep_first = sort_by keep_first_key

-- `archs.len() < 2`, for a group that is not empty.
abbrev pub one_archive : List Indexed → Bool
one_archive [] = true
one_archive (e ∷ es) = not (any (λ (x : Indexed). not (eqb (x.1).archive_id (e.1).archive_id)) es)

abbrev pub group_with :
    ℕ → String → List Indexed → Option (Indexed × String) → Option (Group × Tally)
group_with threshold kind members none = none
group_with threshold kind members (some (keep, reason)) =
    let k : Keeper = record { kind = kind; threshold = threshold; keep = keep; reason = reason } in
    let t = tally k empty_tally members in
    some (
      record {
        group_id = 0;
        match_kind = kind;
        max_distance = t.max_dist;
        reclaimable_bytes = t.reclaimable;
        review_only_bytes = t.review_only;
        members = keep_first (map (member_of k) members);
      },
      t,
    )

-- One round of the loop over the raw groups; `none` where the group is left out.
unfoldable pub assemble :
    (Bytes → Chars) → Bool → ℕ → String → List Indexed → Option (Group × Tally)
assemble stem_of across_only threshold kind members =
    let sorted = by_id members in
    if across_only && one_archive sorted
    then none
    else group_with threshold kind sorted (pick_keep stem_of kind sorted)

-- Whether the rows that share a hash form an exact group.
unfoldable pub forms_exact_group : List Row → Bool
forms_exact_group rows =
    let real = count (λ r. not (is_hardlink r) && not (shadowed r)) rows in
    leb 2 real || (leb 1 real && leb 1 (count shadowed rows))
