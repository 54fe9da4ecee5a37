-- ===== src/Risk/Refinement.antt =====
-- The profiler implements a list of the hosts that were seen last.
use packet_dpi_engine.Base.{
  ℕ, zero, suc, ◌≤◌, ◌≡◌, refl, sym, ap, ◌∙◌, Bool, true, false, List, [], ◌∷◌, ltb, if◌then◌else◌,
  length, take, length-take, arith, Bool-cases, Option-cases, inl, inr,
}
use packet_dpi_engine.Flow.Address.{IpAddress, is_valid_ip}
use packet_dpi_engine.Threat.Trackers.{lookup}
use packet_dpi_engine.Risk.Profiler.{
  HostRiskProfiler, new_profiler, touch_host, new_host, evict_lru, update_host_risk,
}
use packet_dpi_engine.Risk.Recency.{member, seen_now}
use packet_dpi_engine.Risk.ProfilerLaws.{
  is_known, Follows, evict_lru-MakesRoom, known-Follows, new-Follows,
}

-- A call of `update_host_risk`.
pub record Sighting : Type 0 where
  pub ip : IpAddress
  pub risk : ℕ
  pub is_beaconing : Bool
  pub is_exfiltration : Bool
  pub timestamp_us : ℕ

abbrev pub update_with : HostRiskProfiler → Sighting → HostRiskProfiler
update_with p s = update_host_risk p s.ip s.risk s.is_beaconing s.is_exfiltration s.timestamp_us

abbrev pub update_all : HostRiskProfiler → List Sighting → HostRiskProfiler
update_all p [] = p
update_all p (s ∷ more) = update_all (update_with p s) more

-- The specification: the valid addresses that were seen, most recent first and each once.
abbrev pub see : List IpAddress → Sighting → List IpAddress
see r s = if is_valid_ip s.ip then seen_now s.ip r else r

abbrev pub recency : List IpAddress → List Sighting → List IpAddress
recency r [] = r
recency r (s ∷ more) = recency (see r s) more

update-Follows :
    (p : HostRiskProfiler) (r : List IpAddress) (s : Sighting)
    → is_valid_ip s.ip ≡ true
    → Follows p r
    → Follows (update_with p s) (seen_now s.ip r)
unfolding update_host_risk
update-Follows p r s valid v = elim (Option-cases (lookup s.ip p.hosts)) [
  | inl absent ↦
      let p' = evict_lru p p.lru_list in
      let e = new_host s.ip s.risk s.is_beaconing s.is_exfiltration s.timestamp_us in
      rw (valid, absent)
        (new-Follows p p' s.ip r e v (evict_lru-MakesRoom p s.ip r p.lru_list refl v absent))
  | inr (e, present) ↦
      let e' = touch_host s.risk s.is_beaconing s.is_exfiltration s.timestamp_us e in
      rw (valid, present) (known-Follows p s.ip r e e' v present)
]

update_invalid :
    (p : HostRiskProfiler) (s : Sighting) → is_valid_ip s.ip ≡ false → update_with p s ≡ p
unfolding update_host_risk
update_invalid p s other = rw other refl

see-Follows :
    (p : HostRiskProfiler) (r : List IpAddress) (s : Sighting)
    → Follows p r
    → Follows (update_with p s) (see r s)
see-Follows p r s v = elim (Bool-cases (is_valid_ip s.ip)) [
  | inl valid ↦ rw valid (update-Follows p r s valid v)
  | inr other ↦ rw (update_invalid p s other, other) v
]

update_all-Follows :
    (p : HostRiskProfiler) (r : List IpAddress) (sightings : List Sighting)
    → Follows p r
    → Follows (update_all p sightings) (recency r sightings)
update_all-Follows p r [] v = v
update_all-Follows p r (s ∷ more) v =
    update_all-Follows (update_with p s) (see r s) more (see-Follows p r s v)

evict_lru_keeps_limit :
    (p : HostRiskProfiler) (l : List IpAddress) → (evict_lru p l).max_hosts ≡ p.max_hosts
unfolding evict_lru
evict_lru_keeps_limit p [] = refl
evict_lru_keeps_limit p (a ∷ more) = ground arith

update_keeps_limit :
    (p : HostRiskProfiler) (s : Sighting) → (update_with p s).max_hosts ≡ p.max_hosts
unfolding update_host_risk
update_keeps_limit p s = ground (arith, evict_lru_keeps_limit p p.lru_list)

update_all_keeps_limit :
    (p : HostRiskProfiler) (sightings : List Sighting)
    → (update_all p sightings).max_hosts ≡ p.max_hosts
update_all_keeps_limit p [] = refl
update_all_keeps_limit p (s ∷ more) =
    update_all_keeps_limit (update_with p s) more ∙ update_keeps_limit p s

take-nil : (n : ℕ) → take {A = IpAddress} n [] ≡ []
take-nil zero = refl
take-nil (suc n) = refl

new_profiler-Follows : (n : ℕ) → Follows (new_profiler n) []
unfolding new_profiler lookup member
new_profiler-Follows n = record {
  positive = ground arith;
  unique = tt;
  recent = sym (take-nil _);
  distinct = tt;
  known = λ j. refl;
  size = refl;
}

-- The number of hosts that a profiler keeps.
abbrev pub limit_of : ℕ → ℕ
limit_of n = if ltb 0 n then n else 4096

-- After any updates, a profiler that was made for `n` hosts, or for 4096 if that is 0, holds exactly
-- the valid addresses seen last, as many as it was made for: its list has them with the most recent
-- first, and its map has a profile for each of them and for no other.
pub update_all-new_profiler-recency :
    (n : ℕ) (sightings : List Sighting)
    → let p = update_all (new_profiler n) sightings in
      let kept = take (limit_of n) (recency [] sightings) in
      (p.lru_list ≡ kept)
      × ((j : IpAddress) → is_known (lookup j p.hosts) ≡ member j kept)
      × (length p.hosts ≡ length kept)
      × (length p.hosts ≤ limit_of n)
unfolding new_profiler
update_all-new_profiler-recency n sightings =
    let p = update_all (new_profiler n) sightings in
    let r = recency [] sightings in
    let v = update_all-Follows (new_profiler n) [] sightings (new_profiler-Follows n) in
    let limit = update_all_keeps_limit (new_profiler n) sightings in
    let same = v.recent ∙ ap (λ k. take k r) limit in
    (
      same,
      (λ j. v.known j ∙ ap (member j) same),
      v.size ∙ ap length same,
      omega (arith, v.size, ap length same, length-take (limit_of n) r),
    )
