-- ===== src/Flow/Expiry.antt =====
-- `FlowTable::cleanup_expired`.
use packet_dpi_engine.Base.{
  ltb, Bool, ℕ, ◌+◌, ◌≡◌, refl, [], ◌∷◌, Option, none, some, arith, length, if◌then◌else◌,
  Bool-cases, inl, inr,
}
use packet_dpi_engine.Flow.Key.{FlowKey}
use packet_dpi_engine.Flow.KeyLaws.{key_eq_iff}
use packet_dpi_engine.Flow.Entry.{FlowEntry, is_expired}
use packet_dpi_engine.Flow.Table.{
  FlowTable, FlowTimeoutConfig, find, find_flow, has_expired, sweep, cleanup_expired,
  get_timeout_for_flow,
}
use packet_dpi_engine.Flow.TableLaws.{Pairs, IsTable}

-- Nothing was seen of the flow for longer than its timeout.
abbrev pub outlived : FlowTimeoutConfig → ℕ → FlowEntry → Bool
outlived c now e = ltb (e.stats.last_seen_us + get_timeout_for_flow c e) now

has_expired-outlived :
    (c : FlowTimeoutConfig) (now : ℕ) (e : FlowEntry) → has_expired c now e ≡ outlived c now e
unfolding is_expired
has_expired-outlived c now e = ground arith

-- What a look-up finds after the sweep.
abbrev pub unless_outlived : FlowTimeoutConfig → ℕ → Option FlowEntry → Option FlowEntry
unless_outlived c now none = none
unless_outlived c now (some e) = if outlived c now e then none else some e

find-sweep :
    (c : FlowTimeoutConfig) (now : ℕ) (k : FlowKey) (t : Pairs)
    → IsTable t
    → find k (sweep c now t).0 ≡ unless_outlived c now (find k t)
unfolding sweep find
find-sweep c now k [] v = refl
find-sweep c now k ((j, e) ∷ t) v =
    ground (arith, find-sweep c now k t v.3, key_eq_iff j k, v.0, has_expired-outlived c now e)

sweep-length :
    (c : FlowTimeoutConfig) (now : ℕ) (t : Pairs)
    → length (sweep c now t).0 + (sweep c now t).1 ≡ length t
unfolding sweep
sweep-length c now [] = refl
sweep-length c now ((j, e) ∷ t) = ground (arith, sweep-length c now t)

sweep-IsTable :
    (c : FlowTimeoutConfig) (now : ℕ) (t : Pairs) → IsTable t → IsTable (sweep c now t).0
unfolding sweep
sweep-IsTable c now [] v = tt
sweep-IsTable c now ((j, e) ∷ t) v = elim (Bool-cases (has_expired c now e)) [
  | inl h ↦ rw h (sweep-IsTable c now t v.3)
  | inr h ↦
      rw h (ground (arith, find-sweep c now j t v.3, v.0), v.1, v.2, sweep-IsTable c now t v.3)
]

-- On a well-formed table a clean-up removes exactly the flows that have expired: a look-up finds
-- what it found before unless nothing was seen of that flow for longer than the timeout of its kind,
-- the number returned is the number of entries removed, and the table stays well formed.
pub cleanup_expired_exact :
    (t : FlowTable) (now : ℕ)
    → IsTable t.table
    → let (t', evicted) = cleanup_expired t now in
      ((k : FlowKey) → find_flow t' k ≡ unless_outlived t.timeout_config now (find_flow t k))
      × (length t'.table + evicted ≡ length t.table)
      × IsTable t'.table
unfolding cleanup_expired find_flow
cleanup_expired_exact t now v = (
  (λ k. find-sweep t.timeout_config now k t.table v),
  sweep-length t.timeout_config now t.table,
  sweep-IsTable t.timeout_config now t.table v,
)
