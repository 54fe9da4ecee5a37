-- ===== src/Flow/Table.antt =====
-- `FlowTable` of include/dpi/flow/flow_table.h and src/flow/flow_table.cpp. The hash map is the list
-- of its pairs; the entry behind a shared pointer is the one in the list.
use packet_dpi_engine.Base.{
  ℕ, ◌+◌, Bool, true, false, List, [], ◌∷◌, Option, none, some, ◌==◌, leb, ◌&&◌, ◌||◌, not,
  if◌then◌else◌, length,
}
use packet_dpi_engine.Packet.Types.{PacketRecord, normalize_timestamp_us, wire_length}
use packet_dpi_engine.Protocols.Types.{
  ParsedPacket, is_valid, is_tcp, is_udp, has_payload, ipproto_tcp, ipproto_udp,
}
use packet_dpi_engine.Dpi.Types.{L7Metadata, DpiResult}
use packet_dpi_engine.Rules.Types.{PolicyVerdict}
use packet_dpi_engine.Flow.Address.{is_valid_ip}
use packet_dpi_engine.Flow.Key.{FlowKey, FlowDirection, from_packet, key_eq}
use packet_dpi_engine.Flow.Tcp.{TcpState, syn_sent, syn_received, is_closed, is_established}
use packet_dpi_engine.Flow.Entry.{
  FlowEntry, max_dpi_buffer_size, new_entry, update, append_dpi_payload, abandon_dpi,
  finalize_classification, is_expired,
}

pub record FlowTimeoutConfig : Type 0 where
  pub tcp_syn_timeout_us : ℕ
  pub tcp_established_timeout_us : ℕ
  pub tcp_closed_timeout_us : ℕ
  pub udp_idle_timeout_us : ℕ
  pub generic_timeout_us : ℕ

abbrev pub default_timeouts : FlowTimeoutConfig
default_timeouts = record {
  tcp_syn_timeout_us = 10000000;
  tcp_established_timeout_us = 300000000;
  tcp_closed_timeout_us = 10000000;
  udp_idle_timeout_us = 30000000;
  generic_timeout_us = 60000000;
}

-- What the table asks of the rule engine.
pub record PolicyEngine : Type 0 where
  pub evaluate_l3_l4 : FlowKey → PolicyVerdict
  pub evaluate_l7 : FlowKey → L7Metadata → PolicyVerdict

-- What the table asks of `DpiEngine::inspect`: payload, protocol, source and destination port.
abbrev pub Inspector : Type 0
Inspector = List ℕ → ℕ → ℕ → ℕ → DpiResult

pub record FlowTable : Type 0 where
  pub table : List (FlowKey × FlowEntry)
  pub timeout_config : FlowTimeoutConfig
  pub rule_engine : Option PolicyEngine

-- `table_.find(key)` and `table_.emplace`, with the write through the shared pointer.
unfoldable pub find : FlowKey → List (FlowKey × FlowEntry) → Option FlowEntry
find k [] = none
find k ((j, e) ∷ t) = if key_eq j k then some e else find k t

unfoldable pub put : FlowKey → FlowEntry → List (FlowKey × FlowEntry) → List (FlowKey × FlowEntry)
put k e [] = (k, e) ∷ []
put k e ((j, f) ∷ t) = if key_eq j k then (j, e) ∷ t else (j, f) ∷ put k e t

abbrev pub set_policy_verdict : FlowEntry → PolicyVerdict → FlowEntry
set_policy_verdict e v = record e { policy_verdict = v }

-- The verdict at the creation of the flow.
unfoldable pub judge_new : Option PolicyEngine → FlowKey → FlowEntry → FlowEntry
judge_new none key e = e
judge_new (some r) key e = set_policy_verdict e (r.evaluate_l3_l4 key)

unfoldable pub judge_l7 : Option PolicyEngine → FlowKey → FlowEntry → FlowEntry
judge_l7 none key e = e
judge_l7 (some r) key e = set_policy_verdict e (r.evaluate_l7 key e.l7_meta)

-- The verdict after the inspection was abandoned: a final one stays.
unfoldable pub judge_abandoned : Option PolicyEngine → FlowKey → FlowEntry → FlowEntry
unfolding judge_l7
judge_abandoned r key e = if e.policy_verdict.is_final then e else judge_l7 r key e

unfoldable pub inspect_tcp :
    Inspector → Option PolicyEngine → FlowKey → ParsedPacket → FlowEntry → FlowEntry
inspect_tcp inspect r key p e0 =
    let e = append_dpi_payload e0 p.l7_payload max_dpi_buffer_size in
    let res = inspect e.dpi_buffer ipproto_tcp p.tcp.src_port p.tcp.dst_port in
    if res.matched
    then judge_l7 r key (finalize_classification e res.metadata)
    else if leb max_dpi_buffer_size (length e.dpi_buffer)
    then judge_abandoned r key (abandon_dpi e)
    else e

unfoldable pub inspect_udp :
    Inspector → Option PolicyEngine → FlowKey → ParsedPacket → FlowEntry → FlowEntry
inspect_udp inspect r key p e =
    let res = inspect p.l7_payload ipproto_udp p.udp.src_port p.udp.dst_port in
    if res.matched
    then judge_l7 r key (finalize_classification e res.metadata)
    else judge_abandoned r key (abandon_dpi e)

-- The layer 7 part of `process_packet`.
unfoldable pub inspect_flow :
    Inspector → Option PolicyEngine → FlowKey → ParsedPacket → FlowEntry → FlowEntry
inspect_flow inspect r key p e =
    if e.dpi_complete || not (has_payload p)
    then e
    else if is_tcp p
    then inspect_tcp inspect r key p e
    else if is_udp p
    then inspect_udp inspect r key p e
    else e

-- The entry that a packet updates: a new one with its first verdict, or the one found.
unfoldable pub touch :
    Option PolicyEngine
    → FlowKey
    → FlowDirection
    → ParsedPacket
    → ℕ
    → ℕ
    → Option FlowEntry
    → FlowEntry
touch r key dir p ts wire none = judge_new r key (update (new_entry key dir ts) p dir ts wire)
touch r key dir p ts wire (some e) = update e p dir ts wire

unfoldable pub process_flow :
    Inspector → FlowTable → FlowKey → FlowDirection → ParsedPacket → ℕ → ℕ → FlowEntry
process_flow inspect t key dir p ts wire =
    inspect_flow inspect t.rule_engine key p
      (touch t.rule_engine key dir p ts wire (find key t.table))

-- `process_packet(packet, timestamp_us, wire_bytes)`: the table after it and the entry, or none.
unfoldable pub process_packet :
    Inspector → FlowTable → ParsedPacket → ℕ → ℕ → FlowTable × Option FlowEntry
process_packet inspect t p ts wire =
    if not (is_valid p)
    then (t, none)
    else if not (is_tcp p) && not (is_udp p)
    then (t, none)
    else (let (key, dir) = from_packet p in
        if not (is_valid_ip key.src.ip) || not (is_valid_ip key.dst.ip)
        then (t, none)
        else (let e = process_flow inspect t key dir p ts wire in
            (record t { table = put key e t.table }, some e)))

-- The overload that takes the captured record.
unfoldable pub process_record :
    Inspector → FlowTable → PacketRecord → ParsedPacket → Bool → FlowTable × Option FlowEntry
process_record inspect t r p is_nanoseconds =
    process_packet inspect t p
      (normalize_timestamp_us r.header.ts_sec r.header.ts_usec is_nanoseconds) (wire_length r)

unfoldable pub find_flow : FlowTable → FlowKey → Option FlowEntry
find_flow t k = find k t.table

abbrev pub is_handshake : TcpState → Bool
is_handshake syn_sent = true
is_handshake syn_received = true
is_handshake _ = false

unfoldable pub get_timeout_for_flow : FlowTimeoutConfig → FlowEntry → ℕ
get_timeout_for_flow c e =
    if e.key.protocol == ipproto_tcp
    then (if is_handshake e.tcp_sm.state
        then c.tcp_syn_timeout_us
        else if is_closed e.tcp_sm.state
        then c.tcp_closed_timeout_us
        else if is_established e.tcp_sm.state
        then c.tcp_established_timeout_us
        else c.generic_timeout_us)
    else if e.key.protocol == ipproto_udp
    then c.udp_idle_timeout_us
    else c.generic_timeout_us

abbrev pub has_expired : FlowTimeoutConfig → ℕ → FlowEntry → Bool
has_expired c now e = is_expired e now (get_timeout_for_flow c e)

-- The loop of `cleanup_expired`: what stays, and the number evicted.
unfoldable pub sweep :
    FlowTimeoutConfig → ℕ → List (FlowKey × FlowEntry) → List (FlowKey × FlowEntry) × ℕ
sweep c now [] = ([], 0)
sweep c now ((k, e) ∷ t) =
    let (rest, evicted) = sweep c now t in
    if has_expired c now e then (rest, evicted + 1) else ((k, e) ∷ rest, evicted)

unfoldable pub cleanup_expired : FlowTable → ℕ → FlowTable × ℕ
unfolding sweep
cleanup_expired t now =
    let (rest, evicted) = sweep t.timeout_config now t.table in (record t { table = rest }, evicted)

unfoldable pub clear : FlowTable → FlowTable
clear t = record t { table = [] }

unfoldable pub set_timeout_config : FlowTable → FlowTimeoutConfig → FlowTable
set_timeout_config t c = record t { timeout_config = c }

unfoldable pub set_rule_engine : FlowTable → Option PolicyEngine → FlowTable
set_rule_engine t engine = record t { rule_engine = engine }
