-- ===== src/Flow/Inspection.antt =====
-- The layer 7 part of `FlowTable::process_packet` on one entry.
use packet_dpi_engine.Base.{ℕ, List, ◌≡◌, refl, ◌∙◌, Option, none, some, arith}
use packet_dpi_engine.Protocols.Types.{ParsedPacket}
use packet_dpi_engine.Dpi.Types.{L7Metadata}
use packet_dpi_engine.Flow.Key.{FlowKey, FlowDirection}
use packet_dpi_engine.Flow.Entry.{
  FlowEntry, max_dpi_buffer_size, new_entry, update, append_dpi_payload, abandon_dpi,
  finalize_classification,
}
use packet_dpi_engine.Flow.EntryLaws.{
  IsSound, new_entry-IsSound, abandon_dpi-IsSound, finalize_classification-IsSound,
  append_dpi_payload-IsSound, update-IsSound, update-KeepsRest,
}
use packet_dpi_engine.Flow.Table.{
  PolicyEngine, Inspector, judge_new, judge_l7, judge_abandoned, inspect_tcp, inspect_udp,
  inspect_flow, touch,
}

-- The entry is sound and filed under the key.
pub record IsFiled (k : FlowKey) (e : FlowEntry) : Type 0 where
  pub own : e.key ≡ k
  pub sound : IsSound e

judge_new-IsFiled :
    (r : Option PolicyEngine) (key k : FlowKey) (e : FlowEntry)
    → IsFiled k e
    → IsFiled k (judge_new r key e)
unfolding judge_new
judge_new-IsFiled none key k e v = v
judge_new-IsFiled (some r) key k e v = ground arith

judge_l7-IsFiled :
    (r : Option PolicyEngine) (key k : FlowKey) (e : FlowEntry)
    → IsFiled k e
    → IsFiled k (judge_l7 r key e)
unfolding judge_l7
judge_l7-IsFiled none key k e v = v
judge_l7-IsFiled (some r) key k e v = ground arith

judge_abandoned-IsFiled :
    (r : Option PolicyEngine) (key k : FlowKey) (e : FlowEntry)
    → IsFiled k e
    → IsFiled k (judge_abandoned r key e)
unfolding judge_abandoned
judge_abandoned-IsFiled r key k e v = ground (arith, judge_l7-IsFiled r key k e v)

abandon_dpi-keeps_key : (e : FlowEntry) → (abandon_dpi e).key ≡ e.key
unfolding abandon_dpi
abandon_dpi-keeps_key e = refl

abandon_dpi-IsFiled : (k : FlowKey) (e : FlowEntry) → IsFiled k e → IsFiled k (abandon_dpi e)
abandon_dpi-IsFiled k e v = record {
  own = abandon_dpi-keeps_key e ∙ v.own;
  sound = abandon_dpi-IsSound e v.sound;
}

finalize-keeps_key : (e : FlowEntry) (m : L7Metadata) → (finalize_classification e m).key ≡ e.key
unfolding finalize_classification
finalize-keeps_key e m = refl

finalize_classification-IsFiled :
    (k : FlowKey) (e : FlowEntry) (m : L7Metadata)
    → IsFiled k e
    → IsFiled k (finalize_classification e m)
finalize_classification-IsFiled k e m v = record {
  own = finalize-keeps_key e m ∙ v.own;
  sound = finalize_classification-IsSound e m v.sound;
}

append-keeps_key :
    (e : FlowEntry) (payload : List ℕ)
    → (append_dpi_payload e payload max_dpi_buffer_size).key ≡ e.key
unfolding append_dpi_payload abandon_dpi
append-keeps_key e payload = ground arith

append_dpi_payload-IsFiled :
    (k : FlowKey) (e : FlowEntry) (payload : List ℕ)
    → IsFiled k e
    → IsFiled k (append_dpi_payload e payload max_dpi_buffer_size)
append_dpi_payload-IsFiled k e payload v = record {
  own = append-keeps_key e payload ∙ v.own;
  sound = append_dpi_payload-IsSound e payload v.sound;
}

inspect_tcp-IsFiled :
    (inspect : Inspector) (r : Option PolicyEngine) (key k : FlowKey) (p : ParsedPacket)
    (e : FlowEntry)
    → IsFiled k e
    → IsFiled k (inspect_tcp inspect r key p e)
unfolding inspect_tcp
inspect_tcp-IsFiled inspect r key k p e v =
    let e1 = append_dpi_payload e p.l7_payload max_dpi_buffer_size in
    let v1 : IsFiled k e1 = append_dpi_payload-IsFiled k e p.l7_payload v in
    let res = inspect e1.dpi_buffer 6 p.tcp.src_port p.tcp.dst_port in
    let f = finalize_classification-IsFiled k e1 res.metadata v1 in
    let a = abandon_dpi-IsFiled k e1 v1 in
    ground (
      arith,
      v1,
      judge_l7-IsFiled r key k (finalize_classification e1 res.metadata) f,
      judge_abandoned-IsFiled r key k (abandon_dpi e1) a,
    )

inspect_udp-IsFiled :
    (inspect : Inspector) (r : Option PolicyEngine) (key k : FlowKey) (p : ParsedPacket)
    (e : FlowEntry)
    → IsFiled k e
    → IsFiled k (inspect_udp inspect r key p e)
unfolding inspect_udp
inspect_udp-IsFiled inspect r key k p e v =
    let res = inspect p.l7_payload 17 p.udp.src_port p.udp.dst_port in
    let f = finalize_classification-IsFiled k e res.metadata v in
    let a = abandon_dpi-IsFiled k e v in
    ground (
      arith,
      judge_l7-IsFiled r key k (finalize_classification e res.metadata) f,
      judge_abandoned-IsFiled r key k (abandon_dpi e) a,
    )

pub inspect_flow-IsFiled :
    (inspect : Inspector) (r : Option PolicyEngine) (key k : FlowKey) (p : ParsedPacket)
    (e : FlowEntry)
    → IsFiled k e
    → IsFiled k (inspect_flow inspect r key p e)
unfolding inspect_flow
inspect_flow-IsFiled inspect r key k p e v =
    ground
      (arith, inspect_tcp-IsFiled inspect r key k p e v, inspect_udp-IsFiled inspect r key k p e v)

update-IsFiled :
    (k : FlowKey) (e : FlowEntry) (p : ParsedPacket) (d : FlowDirection) (ts wire : ℕ)
    → IsFiled k e
    → IsFiled k (update e p d ts wire)
update-IsFiled k e p d ts wire v = record {
  own = (update-KeepsRest e p d ts wire).key ∙ v.own;
  sound = update-IsSound e p d ts wire v.sound;
}

new_entry-key : (k : FlowKey) (d : FlowDirection) (ts : ℕ) → (new_entry k d ts).key ≡ k
unfolding new_entry
new_entry-key k d ts = refl

new_entry-IsFiled : (k : FlowKey) (d : FlowDirection) (ts : ℕ) → IsFiled k (new_entry k d ts)
new_entry-IsFiled k d ts = record { own = new_entry-key k d ts; sound = new_entry-IsSound k d ts }

-- What the table holds under the key, if anything, is filed there.
abbrev pub IsFiledIfAny : FlowKey → Option FlowEntry → Type 0
IsFiledIfAny k none = Unit {0}
IsFiledIfAny k (some e) = IsFiled k e

pub touch-IsFiled :
    (r : Option PolicyEngine) (key : FlowKey) (d : FlowDirection) (p : ParsedPacket) (ts wire : ℕ)
    (o : Option FlowEntry)
    → IsFiledIfAny key o
    → IsFiled key (touch r key d p ts wire o)
unfolding touch
touch-IsFiled r key d p ts wire none v =
    judge_new-IsFiled r key key (update (new_entry key d ts) p d ts wire)
      (update-IsFiled key (new_entry key d ts) p d ts wire (new_entry-IsFiled key d ts))
touch-IsFiled r key d p ts wire (some e) v = update-IsFiled key e p d ts wire v
