-- ===== src/Flow/Tcp.antt =====
-- `TcpStateMachine` of include/dpi/flow/tcp_state_machine.h and src/flow/tcp_state_machine.cpp.
use packet_dpi_engine.Base.{ℕ, Bool, true, false, ◌&&◌, ◌||◌, ltb, if◌then◌else◌}
use packet_dpi_engine.Protocols.Types.{TcpFlags}
use packet_dpi_engine.Flow.Key.{FlowDirection, forward, reverse}

-- enum class TcpState.
pub data TcpState : Type 0 where
  new syn_sent syn_received established fin_wait close_wait closing last_ack closed reset : TcpState

pub record TcpMachine : Type 0 where
  pub state : TcpState
  pub syn_seen_fwd : Bool
  pub syn_seen_rev : Bool
  pub fin_seen_fwd : Bool
  pub fin_seen_rev : Bool
  pub rst_seen : Bool

-- A fresh machine, which is also what `reset` leaves.
unfoldable pub new_machine : TcpMachine
new_machine = record {
  state = new;
  syn_seen_fwd = false;
  syn_seen_rev = false;
  fin_seen_fwd = false;
  fin_seen_rev = false;
  rst_seen = false;
}

abbrev pub is_closed : TcpState → Bool
is_closed closed = true
is_closed reset = true
is_closed _ = false

abbrev pub is_established : TcpState → Bool
is_established established = true
is_established _ = false

-- The states of a connection that is being torn down.
abbrev pub is_closing : TcpState → Bool
is_closing fin_wait = true
is_closing close_wait = true
is_closing closing = true
is_closing last_ack = true
is_closing _ = false

abbrev pub is_forward : FlowDirection → Bool
is_forward forward = true
is_forward reverse = false

-- Step 3: a FIN is noted for its direction, and the second direction closes.
unfoldable pub on_fin : TcpMachine → FlowDirection → TcpMachine
on_fin m dir =
    let fwd = if is_forward dir then true else m.fin_seen_fwd in
    let rev = if is_forward dir then m.fin_seen_rev else true in
    let m' = record m { fin_seen_fwd = fwd; fin_seen_rev = rev } in
    if fwd && rev
    then record m' { state = closed }
    else if is_forward dir
    then record m' { state = fin_wait }
    else record m' { state = close_wait }

-- The ACKs of the teardown, by the current state.
unfoldable pub teardown_ack : TcpState → FlowDirection → TcpState
teardown_ack fin_wait reverse = closing
teardown_ack close_wait forward = closing
teardown_ack s _ = s

unfoldable pub on_closing : TcpMachine → TcpFlags → FlowDirection → TcpMachine
on_closing m flags dir =
    if m.fin_seen_fwd && m.fin_seen_rev
    then record m { state = closed }
    else if flags.ack
    then record m { state = teardown_ack m.state dir }
    else m

abbrev pub sent_if_new : TcpState → TcpState
sent_if_new new = syn_sent
sent_if_new s = s

-- Step 4: a SYN is noted for its direction.
unfoldable pub on_syn : TcpMachine → TcpFlags → FlowDirection → TcpMachine
on_syn m flags dir =
    let m' = record m {
      syn_seen_fwd = if is_forward dir then true else m.syn_seen_fwd;
      syn_seen_rev = if is_forward dir then m.syn_seen_rev else true;
    } in
    if flags.ack
    then record m' { state = syn_received }
    else record m' { state = sent_if_new m.state }

-- Step 5: an ACK or data completes the handshake, or picks the flow up midstream.
abbrev pub established_by_data : TcpState → TcpState
established_by_data new = established
established_by_data syn_sent = established
established_by_data syn_received = established
established_by_data s = s

-- Steps 3 to 5 of `process_packet`.
unfoldable pub on_open : TcpMachine → TcpFlags → FlowDirection → ℕ → TcpMachine
unfolding on_fin on_closing teardown_ack on_syn
on_open m flags dir payload_len =
    if flags.fin
    then on_fin m dir
    else if is_closing m.state
    then on_closing m flags dir
    else if flags.syn
    then on_syn m flags dir
    else if flags.ack || ltb 0 payload_len
    then record m { state = established_by_data m.state }
    else m

-- `process_packet`: the flags of the header, the direction and the length of the payload.
unfoldable pub process_packet : TcpMachine → TcpFlags → FlowDirection → ℕ → TcpMachine
unfolding on_open new_machine
process_packet m flags dir payload_len =
    if flags.rst
    then record m { rst_seen = true; state = reset }
    else if is_closed m.state
    then (if flags.syn then on_open new_machine flags dir payload_len else m)
    else on_open m flags dir payload_len
