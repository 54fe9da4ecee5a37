-- ===== src/Risk/Profiler.antt =====
-- `HostRiskProfiler` of include/dpi/risk/host_risk_profiler.h and src/risk/host_risk_profiler.cpp. The
-- iterator that the map keeps for a host is the place of its address in the list; the average risk, a
-- quotient of the sum and the number of flows, is left out.
use packet_dpi_engine.Base.{
  ℕ, ◌+◌, ◌%◌, ◌^◌, Bool, List, [], ◌∷◌, none, some, ltb, leb, ◌||◌, not, if◌then◌else◌, length,
}
use packet_dpi_engine.Flow.Address.{IpAddress, ip_eq, is_valid_ip}
use packet_dpi_engine.Threat.Trackers.{lookup, store, erase}
use packet_dpi_engine.Risk.Types.{HostRiskProfile}

pub record HostEntry : Type 0 where
  pub profile : HostRiskProfile
  pub total_risk_sum : ℕ

-- `lru_list_`, most recent first, and `map_`.
pub record HostRiskProfiler : Type 0 where
  pub max_hosts : ℕ
  pub lru_list : List IpAddress
  pub hosts : List (IpAddress × HostEntry)

unfoldable pub new_profiler : ℕ → HostRiskProfiler
new_profiler max_hosts = record {
  max_hosts = if ltb 0 max_hosts then max_hosts else 4096;
  lru_list = [];
  hosts = [];
}

-- `erase` of the place of an address, and `back` with `pop_back`.
unfoldable pub remove : IpAddress → List IpAddress → List IpAddress
remove a [] = []
remove a (b ∷ bs) = if ip_eq b a then bs else b ∷ remove a bs

unfoldable pub last_host : IpAddress → List IpAddress → IpAddress
last_host a [] = a
last_host a (b ∷ bs) = last_host b bs

unfoldable pub pop_back : List IpAddress → List IpAddress
pop_back [] = []
pop_back (a ∷ []) = []
pop_back (a ∷ b ∷ bs) = a ∷ pop_back (b ∷ bs)

-- The profile of a host that is known.
unfoldable pub touch_host : ℕ → Bool → Bool → ℕ → HostEntry → HostEntry
touch_host risk is_beaconing is_exfiltration ts e = record {
  total_risk_sum = (e.total_risk_sum + risk) % 2 ^ 64;
  profile = record e.profile {
    total_flows = (e.profile.total_flows + 1) % 2 ^ 32;
    max_flow_risk = if ltb e.profile.max_flow_risk risk then risk else e.profile.max_flow_risk;
    high_risk_flows =
        if leb 60 risk then (e.profile.high_risk_flows + 1) % 2 ^ 32 else e.profile.high_risk_flows;
    has_beaconing_flow = is_beaconing || e.profile.has_beaconing_flow;
    has_exfiltration_flow = is_exfiltration || e.profile.has_exfiltration_flow;
    last_seen_us = ts;
  };
}

unfoldable pub new_host : IpAddress → ℕ → Bool → Bool → ℕ → HostEntry
new_host ip risk is_beaconing is_exfiltration ts = record {
  total_risk_sum = risk;
  profile = record {
    ip = ip;
    total_flows = 1;
    high_risk_flows = if leb 60 risk then 1 else 0;
    max_flow_risk = risk;
    last_seen_us = ts;
    has_beaconing_flow = is_beaconing;
    has_exfiltration_flow = is_exfiltration;
  };
}

-- The eviction of the least recently used host at capacity, with the list of the profiler.
unfoldable pub evict_lru : HostRiskProfiler → List IpAddress → HostRiskProfiler
evict_lru p [] = p
evict_lru p (a ∷ more) =
    if leb p.max_hosts (length p.hosts)
    then record p { lru_list = pop_back (a ∷ more); hosts = erase (last_host a more) p.hosts }
    else p

-- `update_host_risk`.
unfoldable pub update_host_risk :
    HostRiskProfiler → IpAddress → ℕ → Bool → Bool → ℕ → HostRiskProfiler
update_host_risk p ip risk is_beaconing is_exfiltration ts =
    if not (is_valid_ip ip) then p else elim (lookup ip p.hosts) [
      | some e ↦ record p {
        lru_list = ip ∷ remove ip p.lru_list;
        hosts = store ip (touch_host risk is_beaconing is_exfiltration ts e) p.hosts;
      }
      | none ↦
          let p' = evict_lru p p.lru_list in
          record p' {
            lru_list = ip ∷ p'.lru_list;
            hosts = store ip (new_host ip risk is_beaconing is_exfiltration ts) p'.hosts;
          }
    ]

unfoldable pub clear_hosts : HostRiskProfiler → HostRiskProfiler
clear_hosts p = record p { lru_list = []; hosts = [] }
