-- ===== src/Risk/ProfilerLaws.antt =====
-- The profiler keeps the hosts that were seen last.
use packet_dpi_engine.Base.{
  subst, ℕ, zero, suc, ◌+◌, ◌<◌, ◌≤◌, ◌≡◌, refl, sym, ap, ◌∙◌, Bool, true, false, List, [], ◌∷◌,
  Option, none, some, leb, ◌&&◌, ◌||◌, not, length, take, length-take, arith, Bool-cases, leb→le,
  inl, inr,
}
use packet_dpi_engine.Flow.Address.{IpAddress, ip_eq}
use packet_dpi_engine.Flow.AddressOrder.{ip_eq_refl, ip_eq-eq}
use packet_dpi_engine.Threat.Trackers.{lookup, store, erase}
use packet_dpi_engine.Threat.TrackerLaws.{
  Distinct, lookup-erase, store-Distinct, erase-Distinct, length-store_present,
}
use packet_dpi_engine.Risk.Profiler.{
  HostEntry, HostRiskProfiler, remove, last_host, pop_back, evict_lru,
}
use packet_dpi_engine.Risk.Recency.{
  member, Unique, seen_now, member-remove_iff, seen_now-Unique, take-Unique, seen_now-hit,
  seen_now-full, seen_now-room, last_host-member, member-pop_back, length-pop_back, length-remove,
}

abbrev pub is_known {ℓ} : {A : Type ℓ} → Option A → Bool
is_known none = false
is_known (some a) = true

module _ {V : Type 0} where
  is_known-store :
      (j k : IpAddress) (v : V) (m : List (IpAddress × V))
      → is_known (lookup j (store k v m)) ≡ (ip_eq k j || is_known (lookup j m))
  unfolding lookup store
  is_known-store j k v [] = ground arith
  is_known-store j k v ((i, w) ∷ m) = ground (arith, is_known-store j k v m, ip_eq-eq i k)

  is_known-erase :
      (j k : IpAddress) (m : List (IpAddress × V))
      → Distinct m
      → is_known (lookup j (erase k m)) ≡ (is_known (lookup j m) && not (ip_eq k j))
  unfolding lookup erase
  is_known-erase j k [] d = refl
  is_known-erase j k ((i, w) ∷ m) d = grind (
    arith,
    d.0,
    is_known-erase j k m d.1,
    ip_eq-eq i j,
    ip_eq-eq i k,
    ip_eq-eq k j,
    ip_eq_refl k,
    ip_eq_refl i,
  )

  length-erase_known :
      (k : IpAddress) (m : List (IpAddress × V))
      → is_known (lookup k m) ≡ true
      → length (erase k m) + 1 ≡ length m
  unfolding lookup erase
  length-erase_known k [] h = absurd (ground arith)
  length-erase_known k ((i, w) ∷ m) h = ground (arith, h, length-erase_known k m)

  length-store_absent :
      (k : IpAddress) (v : V) (m : List (IpAddress × V))
      → lookup k m ≡ none
      → length (store k v m) ≡ length m + 1
  unfolding lookup store
  length-store_absent k v [] h = omega arith
  length-store_absent k v ((i, w) ∷ m) h = ground (arith, h, length-store_absent k v m)

-- The profiler follows a list of addresses, most recent first: it holds the first of them, as many as
-- fit, in its list and in its map.
pub record Follows (p : HostRiskProfiler) (r : List IpAddress) : Type 0 where
  pub positive : 0 < p.max_hosts
  pub unique : Unique r
  pub recent : p.lru_list ≡ take p.max_hosts r
  pub distinct : Distinct p.hosts
  pub known : (j : IpAddress) → is_known (lookup j p.hosts) ≡ member j p.lru_list
  pub size : length p.hosts ≡ length p.lru_list

-- What is left before a new address comes in.
pub record MakesRoom (p p' : HostRiskProfiler) (ip : IpAddress) (r : List IpAddress) : Type 0 where
  pub same_limit : p'.max_hosts ≡ p.max_hosts
  pub fits : ip ∷ p'.lru_list ≡ take p.max_hosts (seen_now ip r)
  pub distinct : Distinct p'.hosts
  pub known : (j : IpAddress) → is_known (lookup j p'.hosts) ≡ member j p'.lru_list
  pub size : length p'.hosts ≡ length p'.lru_list
  pub absent : lookup ip p'.hosts ≡ none

-- An address that the map does not know is not in the list.
new_to_list :
    (p : HostRiskProfiler) (ip : IpAddress) (r : List IpAddress)
    → Follows p r
    → lookup ip p.hosts ≡ none
    → member ip (take p.max_hosts r) ≡ false
new_to_list p ip r v absent = ap (member ip) (sym v.recent) ∙ sym (v.known ip) ∙ ap is_known absent

full_fits :
    (n : ℕ) (ip : IpAddress) (r : List IpAddress)
    → 0 < n
    → member ip (take n r) ≡ false
    → n ≤ length r
    → ip ∷ pop_back (take n r) ≡ take n (seen_now ip r)
full_fits zero ip r pos h enough = elim pos [ ]
full_fits (suc n) ip r pos h enough = seen_now-full n ip r h enough

evicted-MakesRoom :
    (p : HostRiskProfiler) (ip : IpAddress) (r : List IpAddress) (a : IpAddress)
    (more : List IpAddress)
    → p.lru_list ≡ a ∷ more
    → Follows p r
    → lookup ip p.hosts ≡ none
    → p.max_hosts ≤ length p.hosts
    → MakesRoom p
        (record p { lru_list = pop_back (a ∷ more); hosts = erase (last_host a more) p.hosts })
        ip
        r
evicted-MakesRoom p ip r a more held v absent full =
    let l = last_host a more in
    let inside = v.known l ∙ ap (member l) held ∙ last_host-member a more in
    let count = length-take p.max_hosts r in
    let enough : p.max_hosts ≤ length r = omega (arith, full, v.size, ap length v.recent, count) in
    let unique : Unique (a ∷ more) =
      subst Unique (sym v.recent ∙ held) (take-Unique p.max_hosts r v.unique) in
    record {
      same_limit = refl;
      fits =
          ap (λ t. ip ∷ pop_back t) (sym held ∙ v.recent)
          ∙ full_fits p.max_hosts ip r v.positive (new_to_list p ip r v absent) enough;
      distinct = erase-Distinct l p.hosts v.distinct;
      known = λ j.
          is_known-erase j l p.hosts v.distinct
          ∙ ap (λ b. b && not (ip_eq l j)) (v.known j ∙ ap (member j) held)
          ∙ sym (member-pop_back j a more unique);
      size = omega (
        arith,
        length-erase_known l p.hosts inside,
        v.size,
        ap length held,
        length-pop_back a more,
      );
      absent = lookup-erase ip l p.hosts absent;
    }

kept-MakesRoom :
    (p : HostRiskProfiler) (ip : IpAddress) (r : List IpAddress)
    → Follows p r
    → lookup ip p.hosts ≡ none
    → length r < p.max_hosts
    → MakesRoom p p ip r
kept-MakesRoom p ip r v absent room = record {
  same_limit = refl;
  fits =
      ap (λ t. ip ∷ t) v.recent ∙ seen_now-room p.max_hosts ip r (new_to_list p ip r v absent) room;
  distinct = v.distinct;
  known = v.known;
  size = v.size;
  absent = absent;
}

pub evict_lru-MakesRoom :
    (p : HostRiskProfiler) (ip : IpAddress) (r : List IpAddress) (l : List IpAddress)
    → p.lru_list ≡ l
    → Follows p r
    → lookup ip p.hosts ≡ none
    → MakesRoom p (evict_lru p l) ip r
unfolding evict_lru
evict_lru-MakesRoom p ip r [] held v absent =
    let count = length-take p.max_hosts r in
    kept-MakesRoom p ip r v absent
      (omega (arith, v.positive, ap length v.recent, ap length held, count))
evict_lru-MakesRoom p ip r (a ∷ more) held v absent =
    elim (Bool-cases (leb p.max_hosts (length p.hosts))) [
      | inl full ↦ rw full (evicted-MakesRoom p ip r a more held v absent (leb→le _ _ full))
      | inr room ↦
          let count = length-take p.max_hosts r in
          let less : length p.hosts < p.max_hosts = ground (arith, room) in
          rw room (
            kept-MakesRoom p ip r v absent (omega (arith, less, v.size, ap length v.recent, count)))
    ]

-- A host that is known comes to the front.
pub known-Follows :
    (p : HostRiskProfiler) (ip : IpAddress) (r : List IpAddress) (e e' : HostEntry)
    → Follows p r
    → lookup ip p.hosts ≡ some e
    → Follows
        (record p { lru_list = ip ∷ remove ip p.lru_list; hosts = store ip e' p.hosts })
        (seen_now ip r)
unfolding member
known-Follows p ip r e e' v present =
    let inside : member ip p.lru_list ≡ true = sym (v.known ip) ∙ ap is_known present in
    let unique : Unique p.lru_list =
      subst Unique (sym v.recent) (take-Unique p.max_hosts r v.unique) in
    record {
      positive = v.positive;
      unique = seen_now-Unique ip r v.unique;
      recent =
          ap (λ t. ip ∷ remove ip t) v.recent
          ∙ seen_now-hit p.max_hosts ip r (ap (member ip) (sym v.recent) ∙ inside);
      distinct = store-Distinct ip e' p.hosts v.distinct;
      known = λ j.
          let stored = is_known-store j ip e' p.hosts in
          let removed = member-remove_iff j ip p.lru_list unique in
          ground (arith, stored, removed, v.known j);
      size =
          length-store_present ip e' p.hosts (λ q. ground (arith, present, q))
          ∙ omega (arith, v.size, length-remove ip p.lru_list inside);
    }

-- A new host comes to the front once there is room.
pub new-Follows :
    (p p' : HostRiskProfiler) (ip : IpAddress) (r : List IpAddress) (e : HostEntry)
    → Follows p r
    → MakesRoom p p' ip r
    → Follows
        (record p' { lru_list = ip ∷ p'.lru_list; hosts = store ip e p'.hosts })
        (seen_now ip r)
unfolding member
new-Follows p p' ip r e v room = record {
  positive = omega (arith, v.positive, room.same_limit);
  unique = seen_now-Unique ip r v.unique;
  recent = room.fits ∙ ap (λ n. take n (seen_now ip r)) (sym room.same_limit);
  distinct = store-Distinct ip e p'.hosts room.distinct;
  known = λ j. let stored = is_known-store j ip e p'.hosts in ground (arith, stored, room.known j);
  size = omega (arith, length-store_absent ip e p'.hosts room.absent, room.size);
}
