-- ===== src/Flow/Stats.antt =====
-- include/dpi/flow/flow_stats.h, in `uint64_t`.
use packet_dpi_engine.Base.{
  ℕ, ◌+◌, ◌-◌, ◌%◌, ◌^◌, ◌≤◌, ◌≡◌, ltb, leb, ◌==◌, ◌||◌, if◌then◌else◌, arith,
}
use packet_dpi_engine.Flow.Key.{FlowDirection, forward, reverse}

pub record DirectionStats : Type 0 where
  pub packets : ℕ
  pub bytes : ℕ
  pub payload_bytes : ℕ

pub record FlowStats : Type 0 where
  pub first_seen_us : ℕ
  pub last_seen_us : ℕ
  pub forward : DirectionStats
  pub reverse : DirectionStats

abbrev pub no_traffic : DirectionStats
no_traffic = record { packets = 0; bytes = 0; payload_bytes = 0 }

abbrev pub u64 : ℕ → ℕ
u64 n = n % 2 ^ 64

unfoldable pub add_packet : DirectionStats → ℕ → ℕ → DirectionStats
add_packet d wire_bytes payload_len = record {
  packets = u64 (d.packets + 1);
  bytes = u64 (d.bytes + wire_bytes);
  payload_bytes = u64 (d.payload_bytes + payload_len);
}

-- The counters of the packet's direction.
unfoldable pub add_directed : FlowDirection → ℕ → ℕ → FlowStats → FlowStats
unfolding add_packet
add_directed forward wire_bytes payload_len s = record s {
  forward = add_packet s.forward wire_bytes payload_len;
}
add_directed reverse wire_bytes payload_len s = record s {
  reverse = add_packet s.reverse wire_bytes payload_len;
}

unfoldable pub record_packet : FlowStats → FlowDirection → ℕ → ℕ → ℕ → FlowStats
unfolding add_directed
record_packet s dir timestamp_us wire_bytes payload_len =
    add_directed dir wire_bytes payload_len (record s {
      first_seen_us =
          if s.first_seen_us == 0 || ltb timestamp_us s.first_seen_us
          then timestamp_us
          else s.first_seen_us;
      last_seen_us = if ltb s.last_seen_us timestamp_us then timestamp_us else s.last_seen_us;
    })

unfoldable pub total_packets : FlowStats → ℕ
total_packets s = u64 (s.forward.packets + s.reverse.packets)

unfoldable pub total_bytes : FlowStats → ℕ
total_bytes s = u64 (s.forward.bytes + s.reverse.bytes)

unfoldable pub duration_us : FlowStats → ℕ
duration_us s = if leb s.first_seen_us s.last_seen_us then s.last_seen_us - s.first_seen_us else 0

-- Every packet, of either direction, adds one to the total of packets and its length on the wire to
-- the total of bytes, modulo 2 ^ 64; and the time of the last packet never goes back.
pub record_packet_totals :
    (s : FlowStats) (dir : FlowDirection) (ts wire payload : ℕ)
    → (total_packets (record_packet s dir ts wire payload) ≡ u64 (total_packets s + 1))
      × (total_bytes (record_packet s dir ts wire payload) ≡ u64 (total_bytes s + wire))
      × (s.last_seen_us ≤ (record_packet s dir ts wire payload).last_seen_us)
      × (ts ≤ (record_packet s dir ts wire payload).last_seen_us)
unfolding record_packet total_packets total_bytes
record_packet_totals s forward ts wire payload =
    (omega arith, omega arith, ground arith, ground arith)
record_packet_totals s reverse ts wire payload =
    (omega arith, omega arith, ground arith, ground arith)

-- The first packet is never later than the last one.
pub record_packet_ordered :
    (s : FlowStats) (dir : FlowDirection) (ts wire payload : ℕ)
    → s.first_seen_us ≤ s.last_seen_us
    → (record_packet s dir ts wire payload).first_seen_us
      ≤ (record_packet s dir ts wire payload).last_seen_us
unfolding record_packet
record_packet_ordered s forward ts wire payload h = ground arith
record_packet_ordered s reverse ts wire payload h = ground arith
