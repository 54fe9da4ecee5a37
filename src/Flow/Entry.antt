-- ===== src/Flow/Entry.antt =====
-- `FlowEntry` of include/dpi/flow/flow_entry.h and src/flow/flow_entry.cpp, without the metrics and
-- the score that the risk engine keeps there and that nothing in this file reads.
use packet_dpi_engine.Base.{
  ℕ, ◌-◌, Bool, true, false, List, [], ◌++◌, ltb, leb, ◌&&◌, ◌||◌, if◌then◌else◌, length, take, min,
}
use packet_dpi_engine.Protocols.Types.{ParsedPacket, is_tcp, is_udp, is_empty}
use packet_dpi_engine.Dpi.Types.{L7Metadata, new_l7}
use packet_dpi_engine.Rules.Types.{PolicyVerdict, new_verdict}
use packet_dpi_engine.Flow.Key.{FlowDirection, FlowKey}
use packet_dpi_engine.Flow.Tcp.{
  TcpMachine, new_machine, process_packet, TcpState, established, fin_wait, close_wait, closing,
  last_ack, closed, reset,
}
use packet_dpi_engine.Flow.Stats.{FlowStats, no_traffic, record_packet}

-- enum class FlowState.
pub data FlowState : Type 0 where
  new_flow active_flow established_flow closing_flow closed_flow expired_flow : FlowState

pub record FlowEntry : Type 0 where
  pub key : FlowKey
  pub initial_direction : FlowDirection
  pub state : FlowState
  pub stats : FlowStats
  pub tcp_sm : TcpMachine
  pub l7_meta : L7Metadata
  pub dpi_buffer : List ℕ
  pub dpi_complete : Bool
  pub policy_verdict : PolicyVerdict

abbrev pub max_dpi_buffer_size : ℕ
max_dpi_buffer_size = 8192

-- The constructor.
unfoldable pub new_entry : FlowKey → FlowDirection → ℕ → FlowEntry
new_entry key dir timestamp_us = record {
  key = key;
  initial_direction = dir;
  state = new_flow;
  stats = record {
    first_seen_us = timestamp_us;
    last_seen_us = timestamp_us;
    forward = no_traffic;
    reverse = no_traffic;
  };
  tcp_sm = new_machine;
  l7_meta = new_l7;
  dpi_buffer = [];
  dpi_complete = false;
  policy_verdict = new_verdict;
}

unfoldable pub abandon_dpi : FlowEntry → FlowEntry
abandon_dpi e = record e { dpi_complete = true; dpi_buffer = [] }

unfoldable pub finalize_classification : FlowEntry → L7Metadata → FlowEntry
finalize_classification e meta = record e {
  l7_meta = record meta { is_classified = true };
  dpi_complete = true;
  dpi_buffer = [];
}

unfoldable pub append_dpi_payload : FlowEntry → List ℕ → ℕ → FlowEntry
unfolding abandon_dpi
append_dpi_payload e payload max_buffer_size =
    if e.dpi_complete || is_empty payload
    then e
    else if leb max_buffer_size (length e.dpi_buffer)
    then abandon_dpi e
    else record e {
      dpi_buffer =
          e.dpi_buffer
          ++ take (min (length payload) (max_buffer_size - length e.dpi_buffer)) payload;
    }

-- The flow state that `update` derives from the TCP state.
unfoldable pub state_of_tcp : TcpState → FlowState
state_of_tcp established = established_flow
state_of_tcp fin_wait = closing_flow
state_of_tcp close_wait = closing_flow
state_of_tcp closing = closing_flow
state_of_tcp last_ack = closing_flow
state_of_tcp closed = closed_flow
state_of_tcp reset = closed_flow
state_of_tcp _ = active_flow

unfoldable pub update : FlowEntry → ParsedPacket → FlowDirection → ℕ → ℕ → FlowEntry
update e p dir timestamp_us wire_bytes =
    let payload_len = length p.l7_payload in
    let stats = record_packet e.stats dir timestamp_us wire_bytes payload_len in
    let e' = record e { stats = stats } in
    if is_tcp p
    then (let sm = process_packet e.tcp_sm p.tcp.flags dir payload_len in
        record e' { tcp_sm = sm; state = state_of_tcp sm.state })
    else if is_udp p
    then record e' {
      state =
          if ltb 0 stats.forward.packets && ltb 0 stats.reverse.packets
          then established_flow
          else active_flow;
    }
    else record e' { state = active_flow }

unfoldable pub is_expired : FlowEntry → ℕ → ℕ → Bool
is_expired e current_time_us idle_timeout_us =
    if leb current_time_us e.stats.last_seen_us
    then false
    else ltb idle_timeout_us (current_time_us - e.stats.last_seen_us)
