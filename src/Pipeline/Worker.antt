-- ===== src/Pipeline/Worker.antt =====
-- `WorkerThread` of include/dpi/pipeline/worker_thread.h and src/pipeline/worker_thread.cpp. Its queue
-- is in `Pipeline.Pool`. Its risk engine, whose results nothing else in the worker reads, is the list
-- of the calls that it gets.
use packet_dpi_engine.Base.{
  ℕ, ◌+◌, ◌%◌, ◌^◌, Bool, true, false, List, [], ◌∷◌, ◌++◌, Option, none, some, ltb, not,
  if◌then◌else◌, length, map,
}
use packet_dpi_engine.Memory.{◌>>=◌}
use packet_dpi_engine.Text.{Text}
use packet_dpi_engine.Packet.Types.{wire_length, normalize_timestamp_us}
use packet_dpi_engine.Protocols.Types.{ParsedPacket, is_valid, is_ipv4, is_ipv6}
use packet_dpi_engine.Protocols.Parser.{parse}
use packet_dpi_engine.Rules.Types.{RuleAction, allow, block, alert, log, is_blocked}
use packet_dpi_engine.Flow.Address.{v4, v6, ip_eq}
use packet_dpi_engine.Flow.Key.{FlowKey}
use packet_dpi_engine.Flow.Entry.{FlowEntry}
use packet_dpi_engine.Flow.Table.{FlowTimeoutConfig, PolicyEngine, FlowTable, process_record}
use packet_dpi_engine.Flow.Classification.{dpi_engine}
use packet_dpi_engine.Threat.Types.{SecurityAlert}
use packet_dpi_engine.Threat.AlertBuffer.{AlertBuffer, new_buffer, push_alert}
use packet_dpi_engine.Threat.Engine.{
  ThreatConfig, ThreatEngine, new_alert, new_threat_engine, inspect_threats,
}
use packet_dpi_engine.Pipeline.Pool.{PacketJob}

-- The counters are 64 bits wide.
pub record WorkerStats : Type 0 where
  pub packets_processed : ℕ
  pub bytes_processed : ℕ
  pub flows_created : ℕ
  pub blocked_packets : ℕ
  pub alert_packets : ℕ
  pub dpi_classified_flows : ℕ
  pub malformed_packets : ℕ
  pub threat_alerts_generated : ℕ
  pub threat_alerts_dropped : ℕ

abbrev pub no_work : WorkerStats
no_work = record {
  packets_processed = 0;
  bytes_processed = 0;
  flows_created = 0;
  blocked_packets = 0;
  alert_packets = 0;
  dpi_classified_flows = 0;
  malformed_packets = 0;
  threat_alerts_generated = 0;
  threat_alerts_dropped = 0;
}

-- A call of `evaluate_flow`.
pub record RiskCall : Type 0 where
  pub flow : FlowEntry
  pub packet : ParsedPacket
  pub timestamp_us : ℕ
  pub is_forward : Bool
  pub alerts : List SecurityAlert
  pub policy_action : RuleAction

pub record WorkerThread : Type 0 where
  pub flow_table : FlowTable
  pub threat_engine : ThreatEngine
  pub alert_buffer : AlertBuffer SecurityAlert
  pub risk_calls : List RiskCall
  pub stats : WorkerStats

unfoldable pub new_worker : FlowTimeoutConfig → Option PolicyEngine → ThreatConfig → WorkerThread
new_worker timeouts engine threats = record {
  flow_table = record { table = []; timeout_config = timeouts; rule_engine = engine };
  threat_engine = new_threat_engine threats;
  alert_buffer = new_buffer new_alert threats.max_alert_buffer_capacity;
  risk_calls = [];
  stats = no_work;
}

-- `fetch_add(1)`.
abbrev pub bump : ℕ → ℕ
bump n = (n + 1) % 2 ^ 64

unfoldable pub count_malformed : WorkerStats → WorkerStats
count_malformed s = record s { malformed_packets = bump s.malformed_packets }

abbrev pub is_alert : RuleAction → Bool
is_alert alert = true
is_alert allow = false
is_alert block = false
is_alert log = false

unfoldable pub count_verdict : FlowEntry → WorkerStats → WorkerStats
count_verdict flow s =
    if is_blocked flow.policy_verdict
    then record s { blocked_packets = bump s.blocked_packets }
    else if is_alert flow.policy_verdict.action
    then record s { alert_packets = bump s.alert_packets }
    else s

-- The counters of a packet of a flow; the table had `before` flows and has `after`.
unfoldable pub count_processed : ℕ → ℕ → ℕ → FlowEntry → WorkerStats → WorkerStats
unfolding count_verdict
count_processed before after wire_len flow s = count_verdict flow (record s {
  packets_processed = bump s.packets_processed;
  bytes_processed = (s.bytes_processed + wire_len) % 2 ^ 64;
  flows_created = if ltb before after then bump s.flows_created else s.flows_created;
})

-- The loop over the alerts of a packet.
unfoldable pub push_alerts :
    List SecurityAlert
    → AlertBuffer SecurityAlert × WorkerStats
    → AlertBuffer SecurityAlert × WorkerStats
push_alerts [] (b, s) = (b, s)
push_alerts (a ∷ more) (b, s) =
    push_alerts more
      (push_alert a b, record s { threat_alerts_generated = bump s.threat_alerts_generated })

-- Whether the packet goes the way of its flow key.
unfoldable pub is_fwd : ParsedPacket → FlowEntry → Bool
is_fwd p flow =
    if is_ipv4 p
    then ip_eq (v4 p.ipv4.src_ip) flow.key.src.ip
    else if is_ipv6 p
    then ip_eq (v6 p.ipv6.src_ip) flow.key.src.ip
    else true

abbrev pub risk_call : PacketJob → ParsedPacket → FlowEntry → List SecurityAlert → RiskCall
risk_call job p flow batch = record {
  flow = flow;
  packet = p;
  timestamp_us =
      normalize_timestamp_us job.rec.header.ts_sec job.rec.header.ts_usec job.is_nanoseconds;
  is_forward = is_fwd p flow;
  alerts = batch;
  policy_action = flow.policy_verdict.action;
}

-- What is left of an alert after `std::move`: its numbers and addresses stand, and each of its texts is
-- what `after_move` says that the library leaves of a string. The standard says only that it is valid.
unfoldable pub moved_from : (Text → Text) → SecurityAlert → SecurityAlert
moved_from after_move a = record a {
  signature_name = after_move a.signature_name;
  description = after_move a.description;
  trigger_reason = after_move a.trigger_reason;
  matched_snippet = after_move a.matched_snippet;
}

-- The threats of a packet of the flow `flow`, and its risk. The alerts that the risk engine is given
-- have been moved into the alert buffer before.
unfoldable pub inspect_job :
    (Text → Text) → PacketJob → ParsedPacket → FlowEntry → WorkerThread → WorkerThread
unfolding push_alerts
inspect_job after_move job p flow w =
    let (engine, batch) =
      inspect_threats w.threat_engine job.rec p (some flow) job.is_nanoseconds [] in
    let (b, s) = push_alerts batch (w.alert_buffer, w.stats) in
    record w {
      threat_engine = engine;
      alert_buffer = b;
      risk_calls = w.risk_calls ++ (risk_call job p flow (map (moved_from after_move) batch) ∷ []);
      stats = record s { threat_alerts_dropped = b.dropped_count };
    }

-- What the flow table gave back for a valid packet.
unfoldable pub process_result :
    (Text → Text)
    → WorkerThread
    → PacketJob
    → ParsedPacket
    → FlowTable × Option FlowEntry
    → WorkerThread
unfolding count_malformed count_processed inspect_job
process_result after_move w job p (t, none) = record w {
  flow_table = t;
  stats = count_malformed w.stats;
}
process_result after_move w job p (t, some flow) = inspect_job after_move job p flow (record w {
  flow_table = t;
  stats =
      count_processed (length w.flow_table.table) (length t.table) (wire_length job.rec) flow
        w.stats;
})

unfoldable pub process_parsed :
    (Text → Text) → WorkerThread → PacketJob → ParsedPacket → WorkerThread
unfolding process_result count_malformed
process_parsed after_move w job p =
    if not (is_valid p)
    then record w { stats = count_malformed w.stats }
    else process_result after_move w job p
        (process_record dpi_engine w.flow_table job.rec p job.is_nanoseconds)

-- A turn of the loop of `run`; none is a read outside the packet.
unfoldable pub process_job : (Text → Text) → WorkerThread → PacketJob → Option WorkerThread
unfolding process_parsed
process_job after_move w job = do
  p ← parse job.rec.payload
  some (process_parsed after_move w job p)

unfoldable pub count_classified : List (FlowKey × FlowEntry) → ℕ
count_classified [] = 0
count_classified ((k, e) ∷ t) =
    let rest = count_classified t in if e.l7_meta.is_classified then rest + 1 else rest

-- `run` on the jobs that the queue hands out until it is shut down and empty.
unfoldable pub run_jobs : (Text → Text) → WorkerThread → List PacketJob → Option WorkerThread
unfolding process_job count_classified
run_jobs after_move w [] = some (record w {
  stats = record w.stats { dpi_classified_flows = count_classified w.flow_table.table };
})
run_jobs after_move w (job ∷ more) = do
  w' ← process_job after_move w job
  run_jobs after_move w' more
