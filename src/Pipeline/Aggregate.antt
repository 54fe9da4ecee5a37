-- ===== src/Pipeline/Aggregate.antt =====
-- `PipelineStats` of include/dpi/pipeline/pipeline_types.h and `get_aggregated_stats` of
-- src/pipeline/worker_pool.cpp.
use packet_dpi_engine.Base.{
  ℕ, ◌+◌, ◌%◌, ◌^◌, ◌<◌, ◌≤◌, ◌≡◌, sym, Option, some, length, List, [], ◌∷◌, ◌++◌, arith,
}
use packet_dpi_engine.Text.{Text}
use packet_dpi_engine.Flow.Table.{FlowTimeoutConfig, PolicyEngine}
use packet_dpi_engine.Threat.Engine.{ThreatConfig}
use packet_dpi_engine.Pipeline.Pool.{PacketJob}
use packet_dpi_engine.Pipeline.Worker.{WorkerStats, WorkerThread, new_worker, run_jobs}
use packet_dpi_engine.Pipeline.WorkerCounts.{Counts}
use packet_dpi_engine.Pipeline.WorkerLaws.{run_jobs-new_worker-IsAccounted}

pub record PipelineStats : Type 0 where
  pub total_packets : ℕ
  pub total_bytes : ℕ
  pub total_flows : ℕ
  pub total_blocked_packets : ℕ
  pub total_alert_packets : ℕ
  pub total_dpi_classified_flows : ℕ
  pub total_malformed_packets : ℕ
  pub unroutable_packets : ℕ
  pub total_threat_alerts_generated : ℕ
  pub total_threat_alerts_dropped : ℕ
  pub per_worker_stats : List WorkerStats

abbrev pub no_totals : ℕ → PipelineStats
no_totals unroutable = record {
  total_packets = 0;
  total_bytes = 0;
  total_flows = 0;
  total_blocked_packets = 0;
  total_alert_packets = 0;
  total_dpi_classified_flows = 0;
  total_malformed_packets = 0;
  unroutable_packets = unroutable;
  total_threat_alerts_generated = 0;
  total_threat_alerts_dropped = 0;
  per_worker_stats = [];
}

-- `total.x += snap.x` on 64 bits.
abbrev pub add_count : ℕ → ℕ → ℕ
add_count a b = (a + b) % 2 ^ 64

-- A turn of the loop.
unfoldable pub add_snapshot : PipelineStats → WorkerStats → PipelineStats
add_snapshot total s = record {
  total_packets = add_count total.total_packets s.packets_processed;
  total_bytes = add_count total.total_bytes s.bytes_processed;
  total_flows = add_count total.total_flows s.flows_created;
  total_blocked_packets = add_count total.total_blocked_packets s.blocked_packets;
  total_alert_packets = add_count total.total_alert_packets s.alert_packets;
  total_dpi_classified_flows = add_count total.total_dpi_classified_flows s.dpi_classified_flows;
  total_malformed_packets = add_count total.total_malformed_packets s.malformed_packets;
  unroutable_packets = total.unroutable_packets;
  total_threat_alerts_generated =
      add_count total.total_threat_alerts_generated s.threat_alerts_generated;
  total_threat_alerts_dropped = add_count total.total_threat_alerts_dropped s.threat_alerts_dropped;
  per_worker_stats = total.per_worker_stats ++ (s ∷ []);
}

unfoldable pub add_snapshots : PipelineStats → List WorkerStats → PipelineStats
unfolding add_snapshot
add_snapshots total [] = total
add_snapshots total (s ∷ more) = add_snapshots (add_snapshot total s) more

unfoldable pub get_aggregated_stats : ℕ → List WorkerStats → PipelineStats
unfolding add_snapshots
get_aggregated_stats unroutable workers = add_snapshots (no_totals unroutable) workers

-- Workers with their counters, after `n` jobs in all.
pub data Finished : ℕ → List WorkerStats → Type 0 where
  nobody : Finished 0 []
  another :
      {m n size : ℕ} {s : WorkerStats} {more : List WorkerStats}
      → Counts m size s
      → Finished n more
      → Finished (m + n) (s ∷ more)

-- The totals after `n` jobs.
pub record Totals (n : ℕ) (t : PipelineStats) : Type 0 where
  pub accounted : t.total_packets + t.total_malformed_packets ≡ n
  pub few : t.total_flows ≤ t.total_packets
  pub flagged : t.total_blocked_packets + t.total_alert_packets ≤ t.total_packets

add_snapshot-Totals :
    (k m size : ℕ) (t : PipelineStats) (s : WorkerStats)
    → k + m < 2 ^ 64
    → Totals k t
    → Counts m size s
    → Totals (k + m) (add_snapshot t s)
unfolding add_snapshot
add_snapshot-Totals k m size t s short v c =
    let a = v.accounted in
    let b = c.accounted in
    record {
      accounted = omega (arith, a, b, short);
      few = omega (arith, a, b, v.few, c.few, c.created, short);
      flagged = omega (arith, a, b, v.flagged, c.flagged, short);
    }

add_snapshots-Totals :
    (k n : ℕ) (t : PipelineStats) (workers : List WorkerStats)
    → k + n < 2 ^ 64
    → Totals k t
    → Finished n workers
    → Totals (k + n) (add_snapshots t workers)
unfolding add_snapshots
add_snapshots-Totals k _ t [] short v nobody = let same : k ≡ k + 0 = omega arith in rw (sym same) v
add_snapshots-Totals k _ t (s ∷ more) short v (another {m} {n} {size} c rest) =
    let same : k + m + n ≡ k + (m + n) = omega arith in
    let head = add_snapshot-Totals k m size t s (omega (arith, short)) v c in
    rw (sym same) (add_snapshots-Totals (k + m) n _ more (omega (arith, short)) head rest)

-- The counters of workers that each took jobs until the end, `n` jobs in all.
pub data Ran (after_move : Text → Text) (timeouts : FlowTimeoutConfig)
    (engine : Option PolicyEngine) (threats : ThreatConfig) : ℕ → List WorkerStats → Type 0 where
  nobody_ran : Ran after_move timeouts engine threats 0 []
  also_ran :
      {n : ℕ} {more : List WorkerStats} (jobs : List PacketJob) (w : WorkerThread)
      → run_jobs after_move (new_worker timeouts engine threats) jobs ≡ some w
      → Ran after_move timeouts engine threats n more
      → Ran after_move timeouts engine threats (length jobs + n) (w.stats ∷ more)

Ran-Finished :
    (after_move : Text → Text) (timeouts : FlowTimeoutConfig) (engine : Option PolicyEngine)
    (threats : ThreatConfig) (n : ℕ) (workers : List WorkerStats)
    → n < 2 ^ 64
    → Ran after_move timeouts engine threats n workers
    → Finished n workers
Ran-Finished after_move timeouts engine threats _ _ short nobody_ran = nobody
Ran-Finished after_move timeouts engine threats _ _ short (also_ran {n} {more} jobs w ran rest) =
    let (w', ran', s, few) =
      run_jobs-new_worker-IsAccounted after_move timeouts engine threats jobs
        (omega (arith, short)) in
    let same : w' ≡ w = cc in
    let counts : Counts (length jobs) (length w.flow_table.table) w.stats =
      rw (sym same) s.counts in
    another counts
      (Ran-Finished after_move timeouts engine threats n more (omega (arith, short)) rest)

-- When fresh workers have taken fewer than 2 ^ 64 jobs in all until the end, the aggregated statistics
-- count each job once, as processed or as malformed, and neither the flows nor the blocked and
-- alerted packets together outnumber the processed packets.
pub get_aggregated_stats-Totals :
    (after_move : Text → Text) (timeouts : FlowTimeoutConfig) (engine : Option PolicyEngine)
    (threats : ThreatConfig) (unroutable n : ℕ) (workers : List WorkerStats)
    → n < 2 ^ 64
    → Ran after_move timeouts engine threats n workers
    → Totals n (get_aggregated_stats unroutable workers)
unfolding get_aggregated_stats
get_aggregated_stats-Totals after_move timeouts engine threats unroutable n workers short ran =
    let same : 0 + n ≡ n = omega arith in
    let start : Totals 0 (no_totals unroutable) = record {
      accounted = omega arith;
      few = omega arith;
      flagged = omega arith;
    } in
    rw (sym same) (
      add_snapshots-Totals 0 n (no_totals unroutable) workers (omega (arith, short)) start
        (Ran-Finished after_move timeouts engine threats n workers short ran))
