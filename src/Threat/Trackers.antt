-- ===== src/Threat/Trackers.antt =====
-- The maps from addresses to trackers of src/threat/syn_flood_detector.cpp and
-- src/threat/port_scan_detector.cpp, whose `enforce_capacity_limits` is the same loop three times. A
-- hash map is the list of its pairs.
use packet_dpi_engine.Base.{
  ℕ, ◌-◌, ◌^◌, Bool, List, [], ◌∷◌, Option, none, some, ltb, leb, ◌&&◌, if◌then◌else◌, length,
}
use packet_dpi_engine.Protocols.Types.{ParsedPacket, is_tcp, is_udp, is_ipv4, is_ipv6}
use packet_dpi_engine.Flow.Address.{IpAddress, no_ip, v4, v6, ip_eq}

-- The addresses and ports that the detectors take from a packet.
unfoldable pub packet_src : ParsedPacket → IpAddress
packet_src p = if is_ipv4 p then v4 p.ipv4.src_ip else if is_ipv6 p then v6 p.ipv6.src_ip else no_ip

unfoldable pub packet_dst : ParsedPacket → IpAddress
packet_dst p = if is_ipv4 p then v4 p.ipv4.dst_ip else if is_ipv6 p then v6 p.ipv6.dst_ip else no_ip

unfoldable pub packet_src_port : ParsedPacket → ℕ
packet_src_port p = if is_tcp p then p.tcp.src_port else if is_udp p then p.udp.src_port else 0

unfoldable pub packet_dst_port : ParsedPacket → ℕ
packet_dst_port p = if is_tcp p then p.tcp.dst_port else if is_udp p then p.udp.dst_port else 0

-- More than `limit` microseconds after `since`.
abbrev pub later_than : ℕ → ℕ → ℕ → Bool
later_than now since limit = ltb since now && ltb limit (now - since)

module _ {V : Type 0} where
  unfoldable pub lookup : IpAddress → List (IpAddress × V) → Option V
  lookup k [] = none
  lookup k ((j, v) ∷ m) = if ip_eq j k then some v else lookup k m

  -- The write through the reference that `operator[]` or `find` returns.
  unfoldable pub store : IpAddress → V → List (IpAddress × V) → List (IpAddress × V)
  store k v [] = (k, v) ∷ []
  store k v ((j, w) ∷ m) = if ip_eq j k then (j, v) ∷ m else (j, w) ∷ store k v m

  unfoldable pub erase : IpAddress → List (IpAddress × V) → List (IpAddress × V)
  erase k [] = []
  erase k ((j, v) ∷ m) = if ip_eq j k then m else (j, v) ∷ erase k m

  -- The value at a key, or a new one.
  abbrev pub or_new : V → Option V → V
  or_new v none = v
  or_new v (some w) = w

  -- The loop of `enforce_capacity_limits`, with `oldest_it` and `oldest_time` so far.
  unfoldable pub oldest : (V → ℕ) → IpAddress → ℕ → List (IpAddress × V) → IpAddress
  oldest last_seen k time [] = k
  oldest last_seen k time ((j, v) ∷ m) =
      let older = ltb (last_seen v) time in
      oldest last_seen (if older then j else k) (if older then last_seen v else time) m

  unfoldable pub enforce_capacity_limits : (V → ℕ) → ℕ → List (IpAddress × V) → List (IpAddress × V)
  enforce_capacity_limits last_seen max_tracked [] = []
  enforce_capacity_limits last_seen max_tracked ((k, v) ∷ m) =
      if leb max_tracked (length ((k, v) ∷ m))
      then erase (oldest last_seen k (2 ^ 64 - 1) ((k, v) ∷ m)) ((k, v) ∷ m)
      else (k, v) ∷ m

  -- The loops that erase the trackers that were not seen for more than `limit`.
  unfoldable pub drop_stale : (V → ℕ) → ℕ → ℕ → List (IpAddress × V) → List (IpAddress × V)
  drop_stale last_seen now limit [] = []
  drop_stale last_seen now limit ((k, v) ∷ m) =
      let rest = drop_stale last_seen now limit m in
      if later_than now (last_seen v) limit then rest else (k, v) ∷ rest
