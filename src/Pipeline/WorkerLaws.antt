-- ===== src/Pipeline/WorkerLaws.antt =====
-- `WorkerThread::run`: a worker reads inside its packets and accounts for every job.
use packet_dpi_engine.Base.{
  ℕ, ◌+◌, ◌^◌, ◌<◌, ◌≤◌, ◌≡◌, refl, sym, List, [], ◌∷◌, map, Option, none, some, length, arith,
  length-append, Option-cases, Bool-cases, inl, inr, ◌∙◌,
}
use packet_dpi_engine.Text.{Text}
use packet_dpi_engine.Packet.Types.{normalize_timestamp_us, wire_length}
use packet_dpi_engine.Protocols.Types.{ParsedPacket, is_valid}
use packet_dpi_engine.Protocols.Parser.{parse}
use packet_dpi_engine.Protocols.Safety.{parse-ne-none}
use packet_dpi_engine.Flow.Key.{FlowKey}
use packet_dpi_engine.Flow.Entry.{FlowEntry}
use packet_dpi_engine.Flow.Table.{
  FlowTimeoutConfig, PolicyEngine, FlowTable, process_packet, process_record,
}
use packet_dpi_engine.Flow.TableLaws.{IsTable}
use packet_dpi_engine.Flow.Processing.{process_packet-IsTable}
use packet_dpi_engine.Flow.Classification.{dpi_engine}
use packet_dpi_engine.Threat.AlertBuffer.{new_buffer}
use packet_dpi_engine.Threat.Engine.{ThreatConfig, inspect_threats}
use packet_dpi_engine.Threat.EngineLaws.{
  IsWithin, inspect_threats-IsWithin, inspect_all-new_threat_engine-IsWithin,
}
use packet_dpi_engine.Pipeline.Pool.{PacketJob}
use packet_dpi_engine.Pipeline.Worker.{
  WorkerThread, new_worker, count_malformed, risk_call, moved_from, inspect_job, process_result,
  process_parsed, process_job, count_classified, run_jobs,
}
use packet_dpi_engine.Pipeline.WorkerCounts.{
  Counts, process_packet_size, count_malformed-Counts, count_processed-Counts, push_alerts-Counts,
  push_alerts-generated, push_alerts_processed, count_processed_packets, count_processed_generated,
}

-- What holds of a worker after `n` jobs.
pub record IsAccounted (n : ℕ) (w : WorkerThread) : Type 0 where
  pub counts : Counts n (length w.flow_table.table) w.stats
  pub table : IsTable w.flow_table.table
  pub threats : IsWithin w.threat_engine
  pub generated : w.stats.threat_alerts_generated ≡ w.alert_buffer.total_generated_count
  pub dropped : w.stats.threat_alerts_dropped ≡ w.alert_buffer.dropped_count
  pub judged : length w.risk_calls ≡ w.stats.packets_processed

new_worker-IsAccounted :
    (timeouts : FlowTimeoutConfig) (engine : Option PolicyEngine) (threats : ThreatConfig)
    → IsAccounted 0 (new_worker timeouts engine threats)
unfolding new_worker new_buffer
new_worker-IsAccounted timeouts engine threats = record {
  counts = record { accounted = refl; created = refl; few = omega arith; flagged = omega arith };
  table = tt;
  threats = inspect_all-new_threat_engine-IsWithin threats [];
  generated = refl;
  dropped = refl;
  judged = refl;
}

inspect_job-IsAccounted :
    (after_move : Text → Text) (n : ℕ) (job : PacketJob) (p : ParsedPacket) (flow : FlowEntry)
    (w : WorkerThread)
    → Counts n (length w.flow_table.table) w.stats
    → IsTable w.flow_table.table
    → IsWithin w.threat_engine
    → w.stats.threat_alerts_generated ≡ w.alert_buffer.total_generated_count
    → length w.risk_calls + 1 ≡ w.stats.packets_processed
    → IsAccounted n (inspect_job after_move job p flow w)
unfolding inspect_job
inspect_job-IsAccounted after_move n job p flow w c t v g more =
    let (engine, batch) =
      inspect_threats w.threat_engine job.rec p (some flow) job.is_nanoseconds [] in
    let kept = push_alerts-Counts n (length w.flow_table.table) batch w.alert_buffer w.stats c in
    record {
      counts = record {
        accounted = kept.accounted;
        created = kept.created;
        few = kept.few;
        flagged = kept.flagged;
      };
      table = t;
      threats =
          inspect_threats-IsWithin w.threat_engine job.rec p (some flow) job.is_nanoseconds [] v;
      generated = push_alerts-generated batch w.alert_buffer w.stats g;
      dropped = refl;
      judged = omega (
        arith,
        length-append w.risk_calls (risk_call job p flow (map (moved_from after_move) batch) ∷ []),
        more,
        push_alerts_processed batch w.alert_buffer w.stats,
      );
    }

process_result-IsAccounted :
    (after_move : Text → Text) (n : ℕ) (w : WorkerThread) (job : PacketJob) (p : ParsedPacket)
    (t : FlowTable) (flow : Option FlowEntry)
    → n + 1 < 2 ^ 64
    → (flow ≡ none → length t.table ≡ length w.flow_table.table)
    → length w.flow_table.table ≤ length t.table
    → length t.table ≤ length w.flow_table.table + 1
    → IsTable t.table
    → IsAccounted n w
    → IsAccounted (n + 1) (process_result after_move w job p (t, flow))
unfolding process_result count_malformed
process_result-IsAccounted after_move n w job p t none short same grows little v s =
    let size = length w.flow_table.table in
    let c = count_malformed-Counts n size w.stats short s.counts in
    record {
      counts = rw (same refl) c;
      table = v;
      threats = s.threats;
      generated = s.generated;
      dropped = s.dropped;
      judged = s.judged;
    }
process_result-IsAccounted after_move n w job p t (some flow) short same grows little v s =
    let before = length w.flow_table.table in
    let wire = wire_length job.rec in
    inspect_job-IsAccounted after_move (n + 1) job p flow _
      (count_processed-Counts n before (length t.table) wire flow w.stats short grows little
        s.counts)
      v s.threats
      (count_processed_generated before (length t.table) wire flow w.stats ∙ s.generated)
      (omega (
        arith,
        s.judged,
        count_processed_packets before (length t.table) wire flow w.stats
            (omega (arith, s.counts.accounted, short)),
      ))

process_parsed-IsAccounted :
    (after_move : Text → Text) (n : ℕ) (w : WorkerThread) (job : PacketJob) (p : ParsedPacket)
    → n + 1 < 2 ^ 64
    → IsAccounted n w
    → IsAccounted (n + 1) (process_parsed after_move w job p)
unfolding process_parsed process_record count_malformed
process_parsed-IsAccounted after_move n w job p short s = elim (Bool-cases (is_valid p)) [
  | inl h ↦
      let h' = job.rec.header in
      let ts = normalize_timestamp_us h'.ts_sec h'.ts_usec job.is_nanoseconds in
      let wire = wire_length job.rec in
      let (same, grows, little) = process_packet_size dpi_engine w.flow_table p ts wire in
      let x = process_packet dpi_engine w.flow_table p ts wire in
      rw h (
        process_result-IsAccounted after_move n w job p x.0 x.1 short same grows little
          (process_packet-IsTable dpi_engine w.flow_table p ts wire s.table) s)
  | inr h ↦
      let c = count_malformed-Counts n (length w.flow_table.table) w.stats short s.counts in
      rw h (record {
        counts = c;
        table = s.table;
        threats = s.threats;
        generated = s.generated;
        dropped = s.dropped;
        judged = s.judged;
      })
]

count_classified_bound : (t : List (FlowKey × FlowEntry)) → count_classified t ≤ length t
unfolding count_classified
count_classified_bound [] = omega arith
count_classified_bound ((k, e) ∷ t) = ground (arith, count_classified_bound t)

process_job-IsAccounted :
    (after_move : Text → Text) (n : ℕ) (w : WorkerThread) (job : PacketJob)
    → n + 1 < 2 ^ 64
    → IsAccounted n w
    → (w' : WorkerThread) × (process_job after_move w job ≡ some w') × IsAccounted (n + 1) w'
unfolding process_job
process_job-IsAccounted after_move n w job short s = elim (Option-cases (parse job.rec.payload)) [
  | inl e ↦ absurd (parse-ne-none job.rec.payload e)
  | inr (p, e) ↦ (
    process_parsed after_move w job p,
    rw e refl,
    process_parsed-IsAccounted after_move n w job p short s,
  )
]

run_jobs-IsAccounted :
    (after_move : Text → Text) (n m : ℕ) (w : WorkerThread) (jobs : List PacketJob)
    → n + length jobs ≡ m
    → m < 2 ^ 64
    → IsAccounted n w
    → (w' : WorkerThread) × (run_jobs after_move w jobs ≡ some w')
      × IsAccounted m w'
      × (w'.stats.dpi_classified_flows ≤ w'.stats.flows_created)
unfolding run_jobs
run_jobs-IsAccounted after_move n m w [] size short s =
    let c = s.counts in
    let t = w.flow_table.table in
    let all : n ≡ m = omega (arith, size) in
    let done : IsAccounted n
        (record w { stats = record w.stats { dpi_classified_flows = count_classified t } }) =
      record {
        counts = record {
          accounted = c.accounted;
          created = c.created;
          few = c.few;
          flagged = c.flagged;
        };
        table = s.table;
        threats = s.threats;
        generated = s.generated;
        dropped = s.dropped;
        judged = s.judged;
      } in
    (_, refl, rw (sym all) done, omega (arith, c.created, count_classified_bound t))
run_jobs-IsAccounted after_move n m w (job ∷ more) size short s =
    let (w', ran, s') = process_job-IsAccounted after_move n w job (omega (arith, size, short)) s in
    let (w'', rest, s'', few) =
      run_jobs-IsAccounted after_move (n + 1) m w' more (omega (arith, size)) short s' in
    (w'', rw ran rest, s'', few)

-- Whatever `std::move` leaves of a string, a fresh worker that takes fewer than 2 ^ 64 jobs ends with
-- all of them, and reads nothing outside their packets and the payloads that it inspects. Then each job was counted either as processed or as malformed; the flows created
-- are those in its table, which is well formed, no more than the packets processed; the blocked and
-- the alerted packets are among the processed ones; the classified flows are among those created; the
-- threat alerts counted as generated and dropped are those of its alert buffer; and its detectors
-- keep their capacities. The risk engine is called once for each packet processed.
pub run_jobs-new_worker-IsAccounted :
    (after_move : Text → Text) (timeouts : FlowTimeoutConfig) (engine : Option PolicyEngine)
    (threats : ThreatConfig) (jobs : List PacketJob)
    → length jobs < 2 ^ 64
    → (w : WorkerThread) × (run_jobs after_move (new_worker timeouts engine threats) jobs ≡ some w)
      × IsAccounted (length jobs) w
      × (w.stats.dpi_classified_flows ≤ w.stats.flows_created)
run_jobs-new_worker-IsAccounted after_move timeouts engine threats jobs short =
    run_jobs-IsAccounted after_move 0 (length jobs) (new_worker timeouts engine threats) jobs
      (omega arith) short (new_worker-IsAccounted timeouts engine threats)
