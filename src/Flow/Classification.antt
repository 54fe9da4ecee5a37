-- ===== src/Flow/Classification.antt =====
-- The flow table with `DpiEngine::inspect` attached: the first payload of a TCP flow.
use packet_dpi_engine.Base.{
  ℕ, ◌-◌, ◌≤◌, ◌≡◌, ◌≢◌, refl, ap, ◌∙◌, true, false, List, [], Option, none, some, length, arith,
  min,
}
use packet_dpi_engine.Protocols.Types.{ParsedPacket, is_tcp, is_empty, ipproto_tcp}
use packet_dpi_engine.Dpi.Types.{tls, DpiResult}
use packet_dpi_engine.Dpi.Engine.{inspect, tls_result}
use packet_dpi_engine.Dpi.EngineLaws.{inspect-ne-none}
use packet_dpi_engine.Memory.Views.{take-all}
use packet_dpi_engine.Dpi.TlsHello.{ClientHello, encode_client_hello}
use packet_dpi_engine.Dpi.Inspections.{IsHello, hello_not_empty, inspect-encode_client_hello}
use packet_dpi_engine.Flow.Key.{FlowKey, FlowDirection, from_packet}
use packet_dpi_engine.Flow.Entry.{
  FlowEntry, max_dpi_buffer_size, new_entry, append_dpi_payload, finalize_classification,
}
use packet_dpi_engine.Flow.EntryLaws.{update-KeepsRest}
use packet_dpi_engine.Flow.Table.{
  FlowTable, PolicyEngine, Inspector, judge_new, judge_l7, inspect_tcp, inspect_flow, touch,
  process_flow, process_packet, find_flow,
}
use packet_dpi_engine.Flow.Processing.{has_flow, process_packet-step}

-- What is there, of an option that is proved not to be none.
unfoldable pub the : {A : Type 0} (o : Option A) → o ≢ none → A
the none full = absurd (full refl)
the (some a) full = a

the-some : {A : Type 0} (o : Option A) (full : o ≢ none) {a : A} → o ≡ some a → the o full ≡ a
unfolding the
the-some none full e = absurd (full refl)
the-some (some b) full e = cc

-- `DpiEngine::inspect` as the table calls it. It has a result because the inspection of any payload
-- reads nothing outside it.
unfoldable pub dpi_engine : Inspector
unfolding the
dpi_engine payload protocol src_port dst_port =
    the (inspect payload protocol src_port dst_port)
      (inspect-ne-none payload protocol src_port dst_port)

append_dpi_payload-first :
    (e : FlowEntry) (payload : List ℕ)
    → e.dpi_complete ≡ false
    → e.dpi_buffer ≡ []
    → is_empty payload ≡ false
    → length payload ≤ max_dpi_buffer_size
    → append_dpi_payload e payload max_dpi_buffer_size ≡ record e { dpi_buffer = payload }
unfolding append_dpi_payload
append_dpi_payload-first e payload fresh bare full short =
    let n : length payload ≤ min (length payload) (max_dpi_buffer_size - 0) =
      omega (arith, short) in
    let all = take-all payload (min (length payload) (max_dpi_buffer_size - 0)) n in
    rw (fresh, full, bare, all) refl

inspect_tcp-first :
    (r : Option PolicyEngine) (key : FlowKey) (p : ParsedPacket) (e : FlowEntry) (res : DpiResult)
    → e.dpi_complete ≡ false
    → e.dpi_buffer ≡ []
    → is_empty p.l7_payload ≡ false
    → length p.l7_payload ≤ max_dpi_buffer_size
    → dpi_engine p.l7_payload ipproto_tcp p.tcp.src_port p.tcp.dst_port ≡ res
    → res.matched ≡ true
    → inspect_tcp dpi_engine r key p e
      ≡ judge_l7 r key
          (finalize_classification (record e { dpi_buffer = p.l7_payload }) res.metadata)
unfolding inspect_tcp
inspect_tcp-first r key p e res fresh bare full short said matched =
    let first = append_dpi_payload-first e p.l7_payload fresh bare full short in
    rw (first, said, matched) refl

inspect_flow-tcp :
    (r : Option PolicyEngine) (key : FlowKey) (p : ParsedPacket) (e : FlowEntry)
    → e.dpi_complete ≡ false
    → is_empty p.l7_payload ≡ false
    → is_tcp p ≡ true
    → inspect_flow dpi_engine r key p e ≡ inspect_tcp dpi_engine r key p e
unfolding inspect_flow
inspect_flow-tcp r key p e fresh full over_tcp = rw (fresh, full, over_tcp) refl

touch-none :
    (r : Option PolicyEngine) (key : FlowKey) (dir : FlowDirection) (p : ParsedPacket) (ts wire : ℕ)
    → let e = touch r key dir p ts wire none in (e.dpi_complete ≡ false) × (e.dpi_buffer ≡ [])
unfolding touch judge_new new_entry
touch-none none key dir p ts wire =
    let keeps = update-KeepsRest (new_entry key dir ts) p dir ts wire in
    (keeps.dpi_complete, keeps.dpi_buffer)
touch-none (some r) key dir p ts wire =
    let keeps = update-KeepsRest (new_entry key dir ts) p dir ts wire in
    (keeps.dpi_complete, keeps.dpi_buffer)

dpi_engine-encode_client_hello :
    (h : ClientHello) (src dst : ℕ)
    → IsHello h
    → dpi_engine (encode_client_hello h) ipproto_tcp src dst
      ≡ tls_result (record {
        legacy_version = h.record_version;
        client_version = h.client_version;
        sni = h.name;
        has_sni = true;
      })
unfolding dpi_engine
dpi_engine-encode_client_hello h src dst v =
    let hello = encode_client_hello h in
    the-some (inspect hello ipproto_tcp src dst) (inspect-ne-none hello ipproto_tcp src dst)
      (inspect-encode_client_hello h src dst v)

-- A table with a rule engine meets the first packet of a TCP flow, whose payload is a ClientHello of
-- at most 8192 bytes with a server name: the entry that the packet leaves is classified as TLS with
-- that server name as its host name, its inspection is over with an empty buffer, and its verdict is
-- the one that the rule engine gives on layer 7 for the key of the packet.
pub process_packet-encode_client_hello :
    (t : FlowTable) (r : PolicyEngine) (p : ParsedPacket) (ts wire : ℕ) (h : ClientHello)
    → t.rule_engine ≡ some r
    → has_flow p ≡ true
    → is_tcp p ≡ true
    → find_flow t (from_packet p).0 ≡ none
    → p.l7_payload ≡ encode_client_hello h
    → length (encode_client_hello h) ≤ max_dpi_buffer_size
    → IsHello h
    → (e : FlowEntry) × ((process_packet dpi_engine t p ts wire).1 ≡ some e)
      × (e.l7_meta.protocol ≡ tls)
      × (e.l7_meta.hostname ≡ h.name)
      × (e.dpi_complete ≡ true)
      × (e.dpi_buffer ≡ [])
      × (e.policy_verdict ≡ r.evaluate_l7 (from_packet p).0 e.l7_meta)
unfolding process_flow find_flow judge_l7 finalize_classification tls_result
process_packet-encode_client_hello t r p ts wire h ruled flows over_tcp fresh sent short v =
    let (key, dir) = from_packet p in
    let e = touch (some r) key dir p ts wire none in
    let started = touch-none (some r) key dir p ts wire in
    let full = ap is_empty sent ∙ hello_not_empty h in
    let small : length p.l7_payload ≤ max_dpi_buffer_size = omega (arith, ap length sent, short) in
    let said =
      ap (λ b. dpi_engine b ipproto_tcp p.tcp.src_port p.tcp.dst_port) sent
      ∙ dpi_engine-encode_client_hello h p.tcp.src_port p.tcp.dst_port v in
    let inspected =
      inspect_flow-tcp (some r) key p e started.0 full over_tcp
      ∙ inspect_tcp-first (some r) key p e _ started.0 started.1 full small said refl in
    let step = process_packet-step dpi_engine t p ts wire flows in
    let left = ap (λ x. x.1) step in
    let opened : process_flow dpi_engine t key dir p ts wire
        ≡ inspect_flow dpi_engine (some r) key p e =
      rw (ruled, fresh) refl in
    (_, left ∙ ap some (opened ∙ inspected), refl, refl, refl, refl, refl)
