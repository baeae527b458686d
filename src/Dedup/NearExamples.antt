-- ===== src/Dedup/NearExamples.antt =====
-- Three hashes, two of them near.
use backupsage.Base.{
  any, length, ok, ◌≢◌, ◌<◌, ◌↔◌, ◌≡◌, refl, ◌≤◌, arith, ℕ, true, List, [], ◌∷◌, All,
}
use backupsage.Phash.{hamming}
use backupsage.Dedup.Near.{mih_pairs}
use backupsage.Dedup.UnionFind.{near_components}
use backupsage.Dedup.Forest.{Chain}
use backupsage.Dedup.Clusters.{holds_both}
use backupsage.Dedup.Linked.{IsParted}
use backupsage.Dedup.Connected.{Near, near_components_lem}

abbrev three : List ℕ
three = 5 ∷ 65280 ∷ 3 ∷ []

none_skipped : (mih_pairs three 3 100).1 ≡ 0
unfolding mih_pairs hamming backupsage.Dedup.Near.search_band backupsage.Dedup.Near.search_buckets
    backupsage.Dedup.Near.buckets_from backupsage.Dedup.Near.search_bucket
    backupsage.Dedup.Near.try_all backupsage.Dedup.Near.try_with backupsage.Dedup.Near.try_pair
    backupsage.Base.SortedMap.upsert backupsage.Base.SortedMap.lookup backupsage.Base.Order.nat_ord
    backupsage.Base.Order.pair_ord
none_skipped = refl

near_none_skipped : (near_components three 3 100).1 ≡ 0
unfolding near_components
near_none_skipped = none_skipped

near_components_lem_example :
    (cs : List (List ℕ)) × ((near_components three 3 100).0 ≡ ok cs)
    × IsParted (length three) cs
    × ((x y : ℕ)
        → x < length three
        → y < length three
        → x ≢ y
        → (any (holds_both x y) cs ≡ true) ↔ Chain (Near three 3) x y)
near_components_lem_example = near_components_lem three 3 100 (ground arith) near_none_skipped
