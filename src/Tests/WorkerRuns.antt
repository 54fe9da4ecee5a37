-- ===== src/Tests/WorkerRuns.antt =====
-- The theorems on the worker thread, at two workers that take a SYN with its answer and a frame that
-- is cut.
use packet_dpi_engine.Base.{◌≡◌, ◌≤◌, arith, false, none, some, List, [], ◌∷◌, length, take}
use packet_dpi_engine.Memory.{Buffer}
use packet_dpi_engine.Text.{Text}
use packet_dpi_engine.Flow.Table.{default_timeouts}
use packet_dpi_engine.Pipeline.Pool.{PacketJob}
use packet_dpi_engine.Pipeline.Worker.{WorkerThread, new_worker, run_jobs}
use packet_dpi_engine.Pipeline.WorkerLaws.{IsAccounted, run_jobs-new_worker-IsAccounted}
use packet_dpi_engine.Pipeline.Aggregate.{
  get_aggregated_stats, Totals, nobody_ran, also_ran, get_aggregated_stats-Totals,
}
use packet_dpi_engine.Tests.Packets.{syn_frame, syn_ack_frame}
use packet_dpi_engine.Tests.RiskRuns.{strict_config}

-- A string that is moved from is left empty.
abbrev emptied : Text → Text
emptied text = []

abbrev job_of : Buffer → PacketJob
job_of frame = record {
  rec = record {
    header = record { ts_sec = 1; ts_usec = 5; incl_len = length frame; orig_len = length frame };
    payload = frame;
  };
  is_nanoseconds = false;
}

abbrev jobs_a : List PacketJob
jobs_a = job_of syn_frame ∷ job_of (take 20 syn_frame) ∷ []

abbrev jobs_b : List PacketJob
jobs_b = job_of syn_ack_frame ∷ []

run_jobs-new_worker-IsAccounted_example :
    (w : WorkerThread) × (run_jobs emptied (new_worker default_timeouts none strict_config) jobs_a
      ≡ some w)
    × IsAccounted 2 w
    × (w.stats.dpi_classified_flows ≤ w.stats.flows_created)
run_jobs-new_worker-IsAccounted_example =
    run_jobs-new_worker-IsAccounted emptied default_timeouts none strict_config jobs_a (omega arith)

-- What the theorem on a worker gives for some jobs.
abbrev Worked : List PacketJob → Type 0
Worked jobs =
    (w : WorkerThread) × (run_jobs emptied (new_worker default_timeouts none strict_config) jobs
      ≡ some w)
    × IsAccounted (length jobs) w
    × (w.stats.dpi_classified_flows ≤ w.stats.flows_created)

abbrev worker_a : Worked jobs_a
worker_a =
    run_jobs-new_worker-IsAccounted emptied default_timeouts none strict_config jobs_a (omega arith)

abbrev worker_b : Worked jobs_b
worker_b =
    run_jobs-new_worker-IsAccounted emptied default_timeouts none strict_config jobs_b (omega arith)

get_aggregated_stats-Totals_example :
    Totals 3 (get_aggregated_stats 0 (worker_a.0.stats ∷ worker_b.0.stats ∷ []))
get_aggregated_stats-Totals_example =
    get_aggregated_stats-Totals emptied default_timeouts none strict_config 0 3
      (worker_a.0.stats ∷ worker_b.0.stats ∷ []) (omega arith)
      (also_ran jobs_a worker_a.0 worker_a.1 (also_ran jobs_b worker_b.0 worker_b.1 nobody_ran))
