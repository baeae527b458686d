-- ===== src/Dedup/Returns.antt =====
-- src/core/dedup.rs: `run_dedup` gives a report.
use backupsage.Base.{◌≡◌, refl, arith, ℕ, ◌≤◌, ltb, false, ◌&&◌, List, filter, ok, ok-of_is_ok}
use backupsage.Base.Int.{ℤ}
use backupsage.Coverage.{Bytes}
use backupsage.Dedup.Types.{Row}
use backupsage.Dedup.Markers.{Chars}
use backupsage.Dedup.Order.{DedupParams, ArchiveRow, resolve_scope}
use backupsage.Dedup.Gathered.{gather_total}
use backupsage.Dedup.Report.{DedupReport, in_scope}
use backupsage.Dedup.Run.{Master, algorithms, have_other, max_threshold, run_dedup}

-- With a threshold of at most 3, a registry that can be read, a scope that resolves, one hash
-- algorithm in the scope where near groups are wanted, and queries that succeed, `run_dedup` gives
-- a report: the union-find ends, and neither it nor the gathering of the near and the exact groups,
-- with their marks, indexes out of bounds.
pub run_dedup_returns :
    (stem_of : Bytes → Chars) (master : Master) (p : DedupParams) (registry : List ArchiveRow)
    (scope : List ℤ) (rows : List Row) (unhashed : ℕ)
    → p.threshold ≤ 3
    → master.list ≡ ok registry
    → resolve_scope registry p.archives ≡ ok scope
    → (p.near && have_other (algorithms master.phash_algo (filter (in_scope scope) registry)))
      ≡ false
    → master.fetch_scope p scope ≡ ok rows
    → master.images_without_phash scope ≡ ok unhashed
    → (r : DedupReport) × (run_dedup stem_of master p ≡ ok r)
unfolding run_dedup
run_dedup_returns stem_of master p registry scope rows unhashed bound listed resolved same fetched
      counted =
    let within : ltb max_threshold p.threshold ≡ false = ground (arith, bound) in
    let (raw, e, _) = gather_total p rows in
    ok-of_is_ok (run_dedup stem_of master p)
      (rw (within, listed, resolved, same, fetched, e, counted) refl)
