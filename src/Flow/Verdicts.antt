-- ===== src/Flow/Verdicts.antt =====
-- When the verdict on a flow is final.
use packet_dpi_engine.Base.{
  ℕ, ◌≡◌, ◌<◌, true, false, List, [], ◌∷◌, Option, none, some, arith, length, Bool-cases, inl, inr,
}
use packet_dpi_engine.Protocols.Types.{ParsedPacket, ipproto_tcp, ipproto_udp}
use packet_dpi_engine.Dpi.Types.{L7Metadata}
use packet_dpi_engine.Flow.Key.{FlowKey, FlowDirection, from_packet, key_eq}
use packet_dpi_engine.Flow.Entry.{
  FlowEntry, max_dpi_buffer_size, new_entry, update, append_dpi_payload, abandon_dpi,
  finalize_classification,
}
use packet_dpi_engine.Flow.EntryLaws.{update-KeepsRest}
use packet_dpi_engine.Flow.Table.{
  FlowTable, PolicyEngine, Inspector, find, put, judge_new, judge_l7, judge_abandoned, inspect_tcp,
  inspect_udp, inspect_flow, touch, process_flow, process_packet,
}
use packet_dpi_engine.Flow.TableLaws.{Pairs}
use packet_dpi_engine.Flow.Processing.{has_flow, process_packet-step, process_packet-skip}

-- The inspection goes on with room in its buffer, or it is over and the verdict is final.
pub record IsDecided (e : FlowEntry) : Type 0 where
  pub room : length e.dpi_buffer < max_dpi_buffer_size
  pub decided : e.dpi_complete ≡ true → e.policy_verdict.is_final ≡ true

-- Every verdict with the metadata of layer 7 is final.
abbrev pub IsFinal : PolicyEngine → Type 0
IsFinal r = (key : FlowKey) (l7_meta : L7Metadata) → (r.evaluate_l7 key l7_meta).is_final ≡ true

judge_l7-IsDecided :
    (r : PolicyEngine) (key : FlowKey) (e : FlowEntry)
    → IsFinal r
    → length e.dpi_buffer < max_dpi_buffer_size
    → IsDecided (judge_l7 (some r) key e)
unfolding judge_l7
judge_l7-IsDecided r key e final room = record { room = room; decided = λ _. final key e.l7_meta }

judge_abandoned-IsDecided :
    (r : PolicyEngine) (key : FlowKey) (e : FlowEntry)
    → IsFinal r
    → length e.dpi_buffer < max_dpi_buffer_size
    → IsDecided (judge_abandoned (some r) key e)
unfolding judge_abandoned
judge_abandoned-IsDecided r key e final room =
    let judged = judge_l7-IsDecided r key e final room in ground (arith, judged)

finalize-room :
    (e : FlowEntry) (m : L7Metadata)
    → length (finalize_classification e m).dpi_buffer < max_dpi_buffer_size
unfolding finalize_classification
finalize-room e m = omega arith

abandon-room : (e : FlowEntry) → length (abandon_dpi e).dpi_buffer < max_dpi_buffer_size
unfolding abandon_dpi
abandon-room e = omega arith

append-ongoing :
    (e : FlowEntry) (payload : List ℕ)
    → e.dpi_complete ≡ false
    → length e.dpi_buffer < max_dpi_buffer_size
    → (append_dpi_payload e payload max_dpi_buffer_size).dpi_complete ≡ false
unfolding append_dpi_payload
append-ongoing e payload ongoing room = ground arith

inspect_tcp-IsDecided :
    (inspect : Inspector) (r : PolicyEngine) (key : FlowKey) (p : ParsedPacket) (e : FlowEntry)
    → IsFinal r
    → e.dpi_complete ≡ false
    → IsDecided e
    → IsDecided (inspect_tcp inspect (some r) key p e)
unfolding inspect_tcp
inspect_tcp-IsDecided inspect r key p e final ongoing v =
    let e1 = append_dpi_payload e p.l7_payload max_dpi_buffer_size in
    let res = inspect e1.dpi_buffer ipproto_tcp p.tcp.src_port p.tcp.dst_port in
    let found =
      judge_l7-IsDecided r key (finalize_classification e1 res.metadata) final
        (finalize-room e1 res.metadata) in
    let lost = judge_abandoned-IsDecided r key (abandon_dpi e1) final (abandon-room e1) in
    let still = append-ongoing e p.l7_payload ongoing v.room in ground (arith, found, lost, still)

inspect_udp-IsDecided :
    (inspect : Inspector) (r : PolicyEngine) (key : FlowKey) (p : ParsedPacket) (e : FlowEntry)
    → IsFinal r
    → IsDecided e
    → IsDecided (inspect_udp inspect (some r) key p e)
unfolding inspect_udp
inspect_udp-IsDecided inspect r key p e final v =
    let res = inspect p.l7_payload ipproto_udp p.udp.src_port p.udp.dst_port in
    let found =
      judge_l7-IsDecided r key (finalize_classification e res.metadata) final
        (finalize-room e res.metadata) in
    let lost = judge_abandoned-IsDecided r key (abandon_dpi e) final (abandon-room e) in
    ground (arith, found, lost)

inspect_flow-IsDecided :
    (inspect : Inspector) (r : PolicyEngine) (key : FlowKey) (p : ParsedPacket) (e : FlowEntry)
    → IsFinal r
    → IsDecided e
    → IsDecided (inspect_flow inspect (some r) key p e)
unfolding inspect_flow
inspect_flow-IsDecided inspect r key p e final v = ground (
  arith,
  inspect_tcp-IsDecided inspect r key p e final,
  inspect_udp-IsDecided inspect r key p e final,
)

update-IsDecided :
    (e : FlowEntry) (p : ParsedPacket) (d : FlowDirection) (ts wire : ℕ)
    → IsDecided e
    → IsDecided (update e p d ts wire)
update-IsDecided e p d ts wire v =
    let keeps = update-KeepsRest e p d ts wire in ground (arith, keeps)

new_entry-IsDecided : (k : FlowKey) (d : FlowDirection) (ts : ℕ) → IsDecided (new_entry k d ts)
unfolding new_entry
new_entry-IsDecided k d ts = ground arith

judge_new-IsDecided :
    (r : PolicyEngine) (key : FlowKey) (e : FlowEntry)
    → e.dpi_complete ≡ false
    → IsDecided e
    → IsDecided (judge_new (some r) key e)
unfolding judge_new
judge_new-IsDecided r key e ongoing v = ground arith

abbrev IsDecidedIfAny : Option FlowEntry → Type 0
IsDecidedIfAny none = Unit {0}
IsDecidedIfAny (some e) = IsDecided e

touch-IsDecided :
    (r : PolicyEngine) (key : FlowKey) (d : FlowDirection) (p : ParsedPacket) (ts wire : ℕ)
    (o : Option FlowEntry)
    → IsDecidedIfAny o
    → IsDecided (touch (some r) key d p ts wire o)
unfolding touch new_entry
touch-IsDecided r key d p ts wire none v =
    judge_new-IsDecided r key (update (new_entry key d ts) p d ts wire)
      (update-KeepsRest (new_entry key d ts) p d ts wire).dpi_complete
      (update-IsDecided (new_entry key d ts) p d ts wire (new_entry-IsDecided key d ts))
touch-IsDecided r key d p ts wire (some e) v = update-IsDecided e p d ts wire v

abbrev pub AllDecided : Pairs → Type 0
AllDecided [] = Unit {0}
AllDecided ((k, e) ∷ t) = IsDecided e × AllDecided t

find-IsDecided : (k : FlowKey) (t : Pairs) → AllDecided t → IsDecidedIfAny (find k t)
unfolding find
find-IsDecided k [] v = tt
find-IsDecided k ((j, e) ∷ t) v = elim (Bool-cases (key_eq j k)) [
  | inl h ↦ rw h v.0
  | inr h ↦ rw h (find-IsDecided k t v.1)
]

put-AllDecided :
    (k : FlowKey) (e : FlowEntry) (t : Pairs) → IsDecided e → AllDecided t → AllDecided (put k e t)
unfolding put
put-AllDecided k e [] h v = (h, tt)
put-AllDecided k e ((j, f) ∷ t) h v = elim (Bool-cases (key_eq j k)) [
  | inl q ↦ rw q (h, v.1)
  | inr q ↦ rw q (v.0, put-AllDecided k e t h v.1)
]

process_flow-IsDecided :
    (inspect : Inspector) (t : FlowTable) (r : PolicyEngine) (key : FlowKey) (d : FlowDirection)
    (p : ParsedPacket) (ts wire : ℕ)
    → t.rule_engine ≡ some r
    → IsFinal r
    → AllDecided t.table
    → IsDecided (process_flow inspect t key d p ts wire)
unfolding process_flow
process_flow-IsDecided inspect t r key d p ts wire attached final v = rw attached (
    inspect_flow-IsDecided inspect r key p (touch (some r) key d p ts wire (find key t.table)) final
      (touch-IsDecided r key d p ts wire (find key t.table) (find-IsDecided key t.table v)))

-- With a rule engine attached whose verdicts on layer 7 are all final, no packet leaves a flow
-- behind whose inspection is over while its verdict is still provisional: whether the inspection
-- recognised a protocol, gave up on a datagram or filled its buffer, the flow got a final verdict.
pub process_packet-AllDecided :
    (inspect : Inspector) (t : FlowTable) (r : PolicyEngine) (p : ParsedPacket) (ts wire : ℕ)
    → t.rule_engine ≡ some r
    → IsFinal r
    → AllDecided t.table
    → AllDecided (process_packet inspect t p ts wire).0.table
process_packet-AllDecided inspect t r p ts wire attached final v = elim (Bool-cases (has_flow p)) [
  | inl h ↦ rw (process_packet-step inspect t p ts wire h) (
      put-AllDecided (from_packet p).0 _ t.table
        (process_flow-IsDecided inspect t r (from_packet p).0 (from_packet p).1 p ts wire attached
          final v)
        v)
  | inr h ↦ rw (process_packet-skip inspect t p ts wire h) v
]
