-- ===== src/Flow/TcpLaws.antt =====
-- What holds of the TCP state machine after any packets.
use packet_dpi_engine.Base.{
  ℕ, ◌≡◌, ◌≢◌, ◌⊎◌, refl, Bool, true, false, ◌&&◌, ◌||◌, List, [], ◌∷◌, arith,
}
use packet_dpi_engine.Protocols.Types.{TcpFlags}
use packet_dpi_engine.Flow.Key.{FlowDirection, forward, reverse}
use packet_dpi_engine.Flow.Tcp.{
  syn_sent, syn_received, established, fin_wait, close_wait, closing, last_ack, closed, reset,
  TcpMachine, new_machine, is_closed, is_closing, process_packet,
}

-- A packet as the machine sees it.
pub record Segment : Type 0 where
  pub flags : TcpFlags
  pub dir : FlowDirection
  pub payload_len : ℕ

abbrev pub step : TcpMachine → Segment → TcpMachine
step m s = process_packet m s.flags s.dir s.payload_len

unfoldable pub run : TcpMachine → List Segment → TcpMachine
run m [] = m
run m (s ∷ ss) = run (step m s) ss

-- The flags tell the phase: no FIN before the teardown, one side's in it, both when closed.
pub record IsConsistent (m : TcpMachine) : Type 0 where
  pub no_last_ack : m.state ≢ last_ack
  pub rst_is_reset : m.rst_seen ≡ true → m.state ≡ reset
  pub reset_is_rst : m.state ≡ reset → m.rst_seen ≡ true
  pub closed_both : m.state ≡ closed → (m.fin_seen_fwd && m.fin_seen_rev) ≡ true
  pub both_terminated : (m.fin_seen_fwd && m.fin_seen_rev) ≡ true → is_closed m.state ≡ true
  pub fin_wait_fwd : m.state ≡ fin_wait → m.fin_seen_fwd ≡ true
  pub close_wait_rev : m.state ≡ close_wait → m.fin_seen_rev ≡ true
  pub fin_terminates :
      (m.fin_seen_fwd || m.fin_seen_rev) ≡ true → (is_closing m.state || is_closed m.state) ≡ true
  pub closing_one : m.state ≡ closing → (m.fin_seen_fwd || m.fin_seen_rev) ≡ true
  pub sent_syn : m.state ≡ syn_sent → (m.syn_seen_fwd || m.syn_seen_rev) ≡ true
  pub received_syn : m.state ≡ syn_received → (m.syn_seen_fwd || m.syn_seen_rev) ≡ true

new_machine-IsConsistent : IsConsistent new_machine
unfolding new_machine
new_machine-IsConsistent = ground arith

step-IsConsistent : (m : TcpMachine) (s : Segment) → IsConsistent m → IsConsistent (step m s)
unfolding process_packet
step-IsConsistent m s v = ground arith

run-IsConsistent : (m : TcpMachine) (ss : List Segment) → IsConsistent m → IsConsistent (run m ss)
unfolding run
run-IsConsistent m [] v = v
run-IsConsistent m (s ∷ ss) v = run-IsConsistent (step m s) ss (step-IsConsistent m s v)

-- After any packets the flags and the state of a machine agree: it is in no FIN state without a FIN
-- seen, it is closed or reset as soon as both FINs are seen, RST and the reset state go together,
-- and the state LastAck is never entered.
pub run-new_machine-IsConsistent : (ss : List Segment) → IsConsistent (run new_machine ss)
run-new_machine-IsConsistent ss = run-IsConsistent new_machine ss new_machine-IsConsistent

abbrev pub All {ℓ κ} : {A : Type ℓ} → (A → Type κ) → List A → Type κ
All P [] = Unit
All P (x ∷ xs) = P x × All P xs

abbrev pub NoSyn : Segment → Type 0
NoSyn s = s.flags.syn ≡ false

step-closed :
    (m : TcpMachine) (s : Segment)
    → is_closed m.state ≡ true
    → NoSyn s
    → is_closed (step m s).state ≡ true
unfolding process_packet
step-closed m s c n = ground arith

-- A closed or reset connection stays so until a packet has the SYN flag.
pub run-closed :
    (m : TcpMachine) (ss : List Segment)
    → is_closed m.state ≡ true
    → All NoSyn ss
    → is_closed (run m ss).state ≡ true
unfolding run
run-closed m [] c h = c
run-closed m (s ∷ ss) c h = run-closed (step m s) ss (step-closed m s c h.0) h.1

abbrev pub Has : Segment → Bool → Bool → Bool → Bool → Type 0
Has s rst fin syn ack =
    (s.flags.rst ≡ rst) × (s.flags.fin ≡ fin) × (s.flags.syn ≡ syn) × (s.flags.ack ≡ ack)

-- From a fresh machine, or one that is closed or reset, a SYN, a SYN with ACK and an ACK establish
-- the connection, whatever the directions and payloads; no FIN is seen in it.
pub handshake_establishes :
    (m : TcpMachine) (a b c : Segment)
    → (m ≡ new_machine) ⊎ (is_closed m.state ≡ true)
    → Has a false false true false
    → Has b false false true true
    → Has c false false false true
    → let r = run m (a ∷ b ∷ c ∷ []) in
      (r.state ≡ established) × ((r.fin_seen_fwd || r.fin_seen_rev) ≡ false)
unfolding run process_packet
handshake_establishes m a b c fresh p q r = ground arith

abbrev pub NoFin : Segment → Type 0
NoFin s = (s.flags.fin ≡ false) × (s.flags.rst ≡ false)

-- One direction has sent its FIN, and the connection is being torn down.
abbrev HalfClosed : FlowDirection → TcpMachine → Type 0
HalfClosed forward m =
    (m.fin_seen_fwd ≡ true) × (m.fin_seen_rev ≡ false) × (is_closing m.state ≡ true)
HalfClosed reverse m =
    (m.fin_seen_fwd ≡ false) × (m.fin_seen_rev ≡ true) × (is_closing m.state ≡ true)

step-HalfClosed :
    (d : FlowDirection) (m : TcpMachine) (s : Segment)
    → HalfClosed d m
    → NoFin s
    → HalfClosed d (step m s)
unfolding process_packet
step-HalfClosed forward m s h n = ground arith
step-HalfClosed reverse m s h n = ground arith

run-HalfClosed :
    (d : FlowDirection) (m : TcpMachine) (ss : List Segment)
    → HalfClosed d m
    → All NoFin ss
    → HalfClosed d (run m ss)
unfolding run
run-HalfClosed d m [] h a = h
run-HalfClosed d m (s ∷ ss) h a = run-HalfClosed d (step m s) ss (step-HalfClosed d m s h a.0) a.1

fin-HalfClosed :
    (d : FlowDirection) (m : TcpMachine) (s : Segment)
    → m.fin_seen_fwd ≡ false
    → m.fin_seen_rev ≡ false
    → is_closed m.state ≡ false
    → s.dir ≡ d
    → s.flags.fin ≡ true
    → s.flags.rst ≡ false
    → HalfClosed d (step m s)
unfolding process_packet
fin-HalfClosed forward m s f r c e h k = ground arith
fin-HalfClosed reverse m s f r c e h k = ground arith

second_fin :
    (d : FlowDirection) (m : TcpMachine) (s : Segment)
    → HalfClosed d m
    → s.dir ≢ d
    → s.flags.fin ≡ true
    → s.flags.rst ≡ false
    → (step m s).state ≡ closed
unfolding process_packet
second_fin forward m s h ne f r = ground arith
second_fin reverse m s h ne f r = ground arith

-- A FIN of each direction closes an open connection, in either order and whatever packets without
-- FIN and RST come between them; after the first FIN it is in the teardown, not closed.
pub two_fins_close :
    (m : TcpMachine) (a : Segment) (ss : List Segment) (b : Segment)
    → m.fin_seen_fwd ≡ false
    → m.fin_seen_rev ≡ false
    → is_closed m.state ≡ false
    → a.flags.fin ≡ true
    → a.flags.rst ≡ false
    → All NoFin ss
    → b.flags.fin ≡ true
    → b.flags.rst ≡ false
    → b.dir ≢ a.dir
    → (is_closing (run (step m a) ss).state ≡ true) × ((step (run (step m a) ss) b).state ≡ closed)
two_fins_close m a ss b f r c fin rst quiet fin' rst' ne =
    let half = run-HalfClosed a.dir _ ss (fin-HalfClosed a.dir m a f r c refl fin rst) quiet in
    (ground (arith, half), second_fin a.dir _ b half ne fin' rst')
