-- ===== src/Flow/EntryLaws.antt =====
-- What every operation keeps of a flow entry.
use packet_dpi_engine.Base.{
  ℕ, ◌≤◌, ◌≡◌, true, List, [], length, length-append, length-take, arith, min, ◌-◌, take,
}
use packet_dpi_engine.Protocols.Types.{ParsedPacket}
use packet_dpi_engine.Dpi.Types.{L7Metadata}
use packet_dpi_engine.Flow.Key.{FlowDirection, FlowKey}
use packet_dpi_engine.Flow.Stats.{record_packet, record_packet_ordered}
use packet_dpi_engine.Flow.Entry.{
  FlowEntry, max_dpi_buffer_size, new_entry, abandon_dpi, finalize_classification,
  append_dpi_payload, update,
}

-- The reassembly buffer is bounded and empty once the inspection is over, a classified flow is no
-- longer inspected, and the times are ordered.
pub record IsSound (e : FlowEntry) : Type 0 where
  pub bounded : length e.dpi_buffer ≤ max_dpi_buffer_size
  pub released : e.dpi_complete ≡ true → e.dpi_buffer ≡ []
  pub classified : e.l7_meta.is_classified ≡ true → e.dpi_complete ≡ true
  pub ordered : e.stats.first_seen_us ≤ e.stats.last_seen_us

pub new_entry-IsSound : (k : FlowKey) (d : FlowDirection) (ts : ℕ) → IsSound (new_entry k d ts)
unfolding new_entry
new_entry-IsSound k d ts = ground arith

pub abandon_dpi-IsSound : (e : FlowEntry) → IsSound e → IsSound (abandon_dpi e)
unfolding abandon_dpi
abandon_dpi-IsSound e v = ground arith

pub finalize_classification-IsSound :
    (e : FlowEntry) (m : L7Metadata) → IsSound e → IsSound (finalize_classification e m)
unfolding finalize_classification
finalize_classification-IsSound e m v = ground arith

pub append_dpi_payload-IsSound :
    (e : FlowEntry) (payload : List ℕ)
    → IsSound e
    → IsSound (append_dpi_payload e payload max_dpi_buffer_size)
unfolding append_dpi_payload
append_dpi_payload-IsSound e payload v =
    let n = min (length payload) (max_dpi_buffer_size - length e.dpi_buffer) in
    ground (arith, length-append e.dpi_buffer (take n payload), length-take n payload)

-- `update` changes the statistics, the TCP machine and the state, and nothing else.
pub record KeepsRest (e e' : FlowEntry) : Type 0 where
  pub key : e'.key ≡ e.key
  pub initial_direction : e'.initial_direction ≡ e.initial_direction
  pub l7_meta : e'.l7_meta ≡ e.l7_meta
  pub dpi_buffer : e'.dpi_buffer ≡ e.dpi_buffer
  pub dpi_complete : e'.dpi_complete ≡ e.dpi_complete
  pub policy_verdict : e'.policy_verdict ≡ e.policy_verdict

pub update-KeepsRest :
    (e : FlowEntry) (p : ParsedPacket) (d : FlowDirection) (ts wire : ℕ)
    → KeepsRest e (update e p d ts wire)
unfolding update
update-KeepsRest e p d ts wire = ground arith

pub stats-update :
    (e : FlowEntry) (p : ParsedPacket) (d : FlowDirection) (ts wire : ℕ)
    → (update e p d ts wire).stats ≡ record_packet e.stats d ts wire (length p.l7_payload)
unfolding update
stats-update e p d ts wire = ground arith

pub update-IsSound :
    (e : FlowEntry) (p : ParsedPacket) (d : FlowDirection) (ts wire : ℕ)
    → IsSound e
    → IsSound (update e p d ts wire)
update-IsSound e p d ts wire v =
    let keeps = update-KeepsRest e p d ts wire in
    let stats = stats-update e p d ts wire in
    let ordered = record_packet_ordered e.stats d ts wire (length p.l7_payload) v.ordered in
    ground (arith, keeps, stats, ordered)
