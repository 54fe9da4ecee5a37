-- ===== src/Flow/Processing.antt =====
-- `FlowTable::process_packet`: what a packet does to the table.
use packet_dpi_engine.Base.{
  ℕ, ◌≡◌, Bool, true, false, none, some, arith, ◌||◌, ◌&&◌, Option-cases, Bool-cases, inl, inr,
}
use packet_dpi_engine.Protocols.Types.{ParsedPacket, is_valid, is_tcp, is_udp}
use packet_dpi_engine.Flow.Address.{is_valid_ip}
use packet_dpi_engine.Flow.Key.{FlowKey, FlowDirection, from_packet}
use packet_dpi_engine.Flow.Inspection.{IsFiled, IsFiledIfAny, inspect_flow-IsFiled, touch-IsFiled}
use packet_dpi_engine.Flow.Table.{FlowTable, Inspector, find, put, process_flow, process_packet}
use packet_dpi_engine.Flow.TableLaws.{Pairs, IsTable, put-IsTable, find-IsTable}

-- The packets that belong to a flow: valid TCP and UDP packets between two IP addresses.
unfoldable pub has_flow : ParsedPacket → Bool
has_flow p =
    let key = (from_packet p).0 in
    is_valid p && (is_tcp p || is_udp p) && is_valid_ip key.src.ip && is_valid_ip key.dst.ip

pub process_packet-step :
    (inspect : Inspector) (t : FlowTable) (p : ParsedPacket) (ts wire : ℕ)
    → has_flow p ≡ true
    → let key = (from_packet p).0 in
      let e = process_flow inspect t key (from_packet p).1 p ts wire in
      process_packet inspect t p ts wire ≡ (record t { table = put key e t.table }, some e)
unfolding process_packet has_flow
process_packet-step inspect t p ts wire h = ground arith

pub process_packet-skip :
    (inspect : Inspector) (t : FlowTable) (p : ParsedPacket) (ts wire : ℕ)
    → has_flow p ≡ false
    → process_packet inspect t p ts wire ≡ (t, none)
unfolding process_packet has_flow
process_packet-skip inspect t p ts wire h = ground arith

find-IsFiledIfAny : (k : FlowKey) (t : Pairs) → IsTable t → IsFiledIfAny k (find k t)
find-IsFiledIfAny k t v = elim (Option-cases (find k t)) [
  | inl e ↦ rw e tt
  | inr (e, h) ↦
      let (own, sound) = find-IsTable k t v h in rw h (record { own = own; sound = sound })
]

process_flow-IsFiled :
    (inspect : Inspector) (t : FlowTable) (key : FlowKey) (d : FlowDirection) (p : ParsedPacket)
    (ts wire : ℕ)
    → IsTable t.table
    → IsFiled key (process_flow inspect t key d p ts wire)
unfolding process_flow
process_flow-IsFiled inspect t key d p ts wire v =
    inspect_flow-IsFiled inspect t.rule_engine key key p _ (
      touch-IsFiled t.rule_engine key d p ts wire (find key t.table)
        (find-IsFiledIfAny key t.table v))

-- Whatever the packet, the inspection engine and the rule engine, processing a packet keeps the
-- table well formed: one entry per key, filed under its own key, its reassembly buffer within 8192
-- bytes and empty once the inspection is over.
pub process_packet-IsTable :
    (inspect : Inspector) (t : FlowTable) (p : ParsedPacket) (ts wire : ℕ)
    → IsTable t.table
    → IsTable (process_packet inspect t p ts wire).0.table
process_packet-IsTable inspect t p ts wire v = elim (Bool-cases (has_flow p)) [
  | inl h ↦
      let filed = process_flow-IsFiled inspect t (from_packet p).0 (from_packet p).1 p ts wire v in
      rw (process_packet-step inspect t p ts wire h)
        (put-IsTable _ _ t.table filed.own filed.sound v)
  | inr h ↦ rw (process_packet-skip inspect t p ts wire h) v
]
