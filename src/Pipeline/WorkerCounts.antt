-- ===== src/Pipeline/WorkerCounts.antt =====
-- The counters of a worker, through each step of `WorkerThread::run`.
use packet_dpi_engine.Base.{
  ℕ, ◌+◌, ◌^◌, ◌<◌, ◌≤◌, ◌≡◌, refl, List, [], ◌∷◌, none, length, arith, Bool-cases, inl, inr,
}
use packet_dpi_engine.Protocols.Types.{ParsedPacket}
use packet_dpi_engine.Flow.Key.{from_packet}
use packet_dpi_engine.Flow.Entry.{FlowEntry}
use packet_dpi_engine.Flow.Table.{FlowTable, Inspector, process_flow, process_packet}
use packet_dpi_engine.Flow.TableLaws.{length-put}
use packet_dpi_engine.Flow.Processing.{has_flow, process_packet-step, process_packet-skip}
use packet_dpi_engine.Threat.Types.{SecurityAlert}
use packet_dpi_engine.Threat.AlertBuffer.{AlertBuffer, push_alert}
use packet_dpi_engine.Pipeline.Worker.{
  WorkerStats, count_malformed, count_verdict, count_processed, push_alerts,
}

-- A packet adds one flow to a table or none, and none if no flow comes back.
pub process_packet_size :
    (inspect : Inspector) (t : FlowTable) (p : ParsedPacket) (ts wire : ℕ)
    → let (t', result) = process_packet inspect t p ts wire in
      (result ≡ none → length t'.table ≡ length t.table)
      × (length t.table ≤ length t'.table)
      × (length t'.table ≤ length t.table + 1)
process_packet_size inspect t p ts wire = elim (Bool-cases (has_flow p)) [
  | inl h ↦
      let (key, d) = from_packet p in
      let e = length-put key (process_flow inspect t key d p ts wire) t.table in
      rw (process_packet-step inspect t p ts wire h)
        ((λ q. cc), ground (arith, e), ground (arith, e))
  | inr h ↦ rw (process_packet-skip inspect t p ts wire h) ((λ q. refl), omega arith, omega arith)
]

-- The counters after `n` jobs, with `size` flows in the table.
pub record Counts (n size : ℕ) (s : WorkerStats) : Type 0 where
  pub accounted : s.packets_processed + s.malformed_packets ≡ n
  pub created : s.flows_created ≡ size
  pub few : size ≤ s.packets_processed
  pub flagged : s.blocked_packets + s.alert_packets ≤ s.packets_processed

pub count_malformed-Counts :
    (n size : ℕ) (s : WorkerStats)
    → n + 1 < 2 ^ 64
    → Counts n size s
    → Counts (n + 1) size (count_malformed s)
unfolding count_malformed
count_malformed-Counts n size s short c = record {
  accounted = omega (arith, c.accounted, short);
  created = c.created;
  few = c.few;
  flagged = c.flagged;
}

pub count_processed-Counts :
    (n before after wire : ℕ) (flow : FlowEntry) (s : WorkerStats)
    → n + 1 < 2 ^ 64
    → before ≤ after
    → after ≤ before + 1
    → Counts n before s
    → Counts (n + 1) after (count_processed before after wire flow s)
unfolding count_processed count_verdict
count_processed-Counts n before after wire flow s short grows little c =
    let a = c.accounted in
    let b = c.created in
    let f = c.few in
    let g = c.flagged in
    record {
      accounted = ground (arith, a, short);
      created = ground (arith, a, b, f, short);
      few = ground (arith, a, f, short);
      flagged = ground (arith, a, g, short);
    }

pub push_alerts-Counts :
    (n size : ℕ) (alerts : List SecurityAlert) (b : AlertBuffer SecurityAlert) (s : WorkerStats)
    → Counts n size s
    → Counts n size (push_alerts alerts (b, s)).1
unfolding push_alerts
push_alerts-Counts n size [] b s c = c
push_alerts-Counts n size (a ∷ more) b s c =
    push_alerts-Counts n size more (push_alert a b) _
      (record { accounted = c.accounted; created = c.created; few = c.few; flagged = c.flagged })

pub push_alerts-generated :
    (alerts : List SecurityAlert) (b : AlertBuffer SecurityAlert) (s : WorkerStats)
    → s.threat_alerts_generated ≡ b.total_generated_count
    → let (b', s') = push_alerts alerts (b, s) in
      s'.threat_alerts_generated ≡ b'.total_generated_count
unfolding push_alerts push_alert
push_alerts-generated [] b s e = e
push_alerts-generated (a ∷ more) b s e =
    push_alerts-generated more (push_alert a b) _ (ground (arith, e))

pub push_alerts_processed :
    (alerts : List SecurityAlert) (b : AlertBuffer SecurityAlert) (s : WorkerStats)
    → (push_alerts alerts (b, s)).1.packets_processed ≡ s.packets_processed
unfolding push_alerts
push_alerts_processed [] b s = refl
push_alerts_processed (a ∷ more) b s = push_alerts_processed more (push_alert a b) _

pub count_processed_packets :
    (before after wire : ℕ) (flow : FlowEntry) (s : WorkerStats)
    → s.packets_processed + 1 < 2 ^ 64
    → (count_processed before after wire flow s).packets_processed ≡ s.packets_processed + 1
unfolding count_processed count_verdict
count_processed_packets before after wire flow s short = ground (arith, short)

pub count_processed_generated :
    (before after wire : ℕ) (flow : FlowEntry) (s : WorkerStats)
    → (count_processed before after wire flow s).threat_alerts_generated ≡ s.threat_alerts_generated
unfolding count_processed count_verdict
count_processed_generated before after wire flow s = ground arith
