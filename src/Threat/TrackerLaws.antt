-- ===== src/Threat/TrackerLaws.antt =====
-- The maps of the detectors have one tracker for an address and stay within their capacity.
use packet_dpi_engine.Base.{
  ℕ, ◌+◌, ◌-◌, ◌^◌, ◌<◌, ◌≤◌, ◌≡◌, ◌≢◌, ◌⊎◌, inl, inr, refl, false, List, [], ◌∷◌, none, some,
  length, arith, max, Bool-cases,
}
use packet_dpi_engine.Flow.Address.{IpAddress, ip_eq}
use packet_dpi_engine.Flow.AddressOrder.{ip_eq_refl, ip_eq-eq}
use packet_dpi_engine.Threat.Trackers.{
  lookup, store, erase, oldest, enforce_capacity_limits, drop_stale,
}

ip_eq_other : (j k : IpAddress) → ip_eq j k ≡ false → ip_eq k j ≡ false
ip_eq_other j k other = ground (arith, other, ip_eq-eq k j, ip_eq_refl k)

module _ {V : Type 0} where
  -- Each address has one tracker.
  abbrev pub Distinct : List (IpAddress × V) → Type 0
  Distinct [] = Unit {0}
  Distinct ((k, v) ∷ m) = (lookup k m ≡ none) × Distinct m

  pub lookup-store_self :
      (k : IpAddress) (v : V) (m : List (IpAddress × V)) → lookup k (store k v m) ≡ some v
  unfolding lookup store
  lookup-store_self k v [] = ground (arith, ip_eq_refl k)
  lookup-store_self k v ((j, w) ∷ m) = ground (arith, lookup-store_self k v m)

  lookup-store-none :
      (j k : IpAddress) (v : V) (m : List (IpAddress × V))
      → ip_eq k j ≡ false
      → lookup j m ≡ none
      → lookup j (store k v m) ≡ none
  unfolding lookup store
  lookup-store-none j k v [] other h = ground (arith, other)
  lookup-store-none j k v ((i, w) ∷ m) other h =
      ground (arith, other, h, lookup-store-none j k v m other)

  pub store-Distinct :
      (k : IpAddress) (v : V) (m : List (IpAddress × V)) → Distinct m → Distinct (store k v m)
  unfolding store lookup
  store-Distinct k v [] d = (refl, tt)
  store-Distinct k v ((j, w) ∷ m) d = elim (Bool-cases (ip_eq j k)) [
    | inl same ↦ rw same d
    | inr other ↦
        rw other (lookup-store-none j k v m (ip_eq_other j k other) d.0, store-Distinct k v m d.1)
  ]

  -- A store adds a tracker only for a new address.
  pub length-store :
      (k : IpAddress) (v : V) (m : List (IpAddress × V)) → length (store k v m) ≤ length m + 1
  unfolding store
  length-store k v [] = omega arith
  length-store k v ((j, w) ∷ m) = ground (arith, length-store k v m)

  pub length-store_present :
      (k : IpAddress) (v : V) (m : List (IpAddress × V))
      → lookup k m ≢ none
      → length (store k v m) ≡ length m
  unfolding store lookup
  length-store_present k v [] h = absurd (h refl)
  length-store_present k v ((j, w) ∷ m) h = ground (arith, h, length-store_present k v m)

  pub lookup-erase :
      (j k : IpAddress) (m : List (IpAddress × V)) → lookup j m ≡ none → lookup j (erase k m) ≡ none
  unfolding lookup erase
  lookup-erase j k [] h = refl
  lookup-erase j k ((i, w) ∷ m) h = ground (arith, h, lookup-erase j k m)

  pub erase-Distinct :
      (k : IpAddress) (m : List (IpAddress × V)) → Distinct m → Distinct (erase k m)
  unfolding erase
  erase-Distinct k [] d = tt
  erase-Distinct k ((j, w) ∷ m) d =
      ground (arith, d, lookup-erase j k m d.0, erase-Distinct k m d.1)

  length-erase :
      (k : IpAddress) (m : List (IpAddress × V)) → lookup k m ≢ none → length (erase k m) < length m
  unfolding lookup erase
  length-erase k [] h = absurd (h refl)
  length-erase k ((j, w) ∷ m) h = ground (arith, h, length-erase k m)

  -- The loop ends at the address it started with or at one of the map.
  oldest-found :
      (f : V → ℕ) (k : IpAddress) (time : ℕ) (m : List (IpAddress × V))
      → (oldest f k time m ≡ k) ⊎ (lookup (oldest f k time m) m ≢ none)
  unfolding oldest lookup
  oldest-found f k time [] = inl refl
  oldest-found f k time ((j, v) ∷ m) =
      grind (arith, oldest-found f j (f v) m, oldest-found f k time m, ip_eq_refl j)

  -- After the eviction there is room for one more.
  pub enforce_capacity_limits-room :
      (f : V → ℕ) (cap : ℕ) (m : List (IpAddress × V))
      → Distinct m
      → length m ≤ max 1 cap
      → Distinct (enforce_capacity_limits f cap m)
        × (length (enforce_capacity_limits f cap m) < max 1 cap)
  unfolding enforce_capacity_limits lookup
  enforce_capacity_limits-room f cap [] d h = (tt, omega arith)
  enforce_capacity_limits-room f cap ((k, v) ∷ m) d h =
      let all = (k, v) ∷ m in
      let old = oldest f k (2 ^ 64 - 1) all in
      grind (
        arith,
        d,
        h,
        ip_eq_refl k,
        oldest-found f k (2 ^ 64 - 1) all,
        erase-Distinct old all,
        length-erase old all,
      )

  lookup-drop_stale :
      (f : V → ℕ) (now limit : ℕ) (j : IpAddress) (m : List (IpAddress × V))
      → lookup j m ≡ none
      → lookup j (drop_stale f now limit m) ≡ none
  unfolding lookup drop_stale
  lookup-drop_stale f now limit j [] h = refl
  lookup-drop_stale f now limit j ((k, v) ∷ m) h =
      ground (arith, h, lookup-drop_stale f now limit j m)

  -- Clean-up keeps the trackers apart and adds none.
  pub drop_stale-Distinct :
      (f : V → ℕ) (now limit : ℕ) (m : List (IpAddress × V))
      → Distinct m
      → Distinct (drop_stale f now limit m) × (length (drop_stale f now limit m) ≤ length m)
  unfolding drop_stale
  drop_stale-Distinct f now limit [] d = (tt, omega arith)
  drop_stale-Distinct f now limit ((k, v) ∷ m) d =
      grind (arith, d, drop_stale-Distinct f now limit m d.1, lookup-drop_stale f now limit k m d.0)

  -- One tracker for an address, and no more than the capacity, or one if that is 0.
  abbrev pub IsBounded : ℕ → List (IpAddress × V) → Type 0
  IsBounded cap m = Distinct m × (length m ≤ max 1 cap)

  pub enforce_capacity_limits-IsBounded :
      (f : V → ℕ) (cap : ℕ) (m : List (IpAddress × V))
      → IsBounded cap m
      → IsBounded cap (enforce_capacity_limits f cap m)
  enforce_capacity_limits-IsBounded f cap m b =
      let (distinct, room) = enforce_capacity_limits-room f cap m b.0 b.1 in
      (distinct, omega (arith, room))

  -- What the detectors do at a new packet of a source.
  pub store-enforced-IsBounded :
      (f : V → ℕ) (cap : ℕ) (k : IpAddress) (v : V) (m : List (IpAddress × V))
      → IsBounded cap m
      → IsBounded cap (store k v (enforce_capacity_limits f cap m))
  store-enforced-IsBounded f cap k v m b =
      let (distinct, room) = enforce_capacity_limits-room f cap m b.0 b.1 in
      (
        store-Distinct k v (enforce_capacity_limits f cap m) distinct,
        omega (arith, room, length-store k v (enforce_capacity_limits f cap m)),
      )

  pub store_present-IsBounded :
      (cap : ℕ) (k : IpAddress) (v : V) (m : List (IpAddress × V))
      → lookup k m ≢ none
      → IsBounded cap m
      → IsBounded cap (store k v m)
  store_present-IsBounded cap k v m h b =
      (store-Distinct k v m b.0, omega (arith, length-store_present k v m h, b.1))
