-- ===== src/Flow/KeyLaws.antt =====
-- The flow key does not depend on the direction of a packet.
use packet_dpi_engine.Base.{ℕ, ◌≡◌, ◌≢◌, ◌↔◌, true, arith}
use packet_dpi_engine.Flow.Address.{IpAddress, Endpoint, IsWire}
use packet_dpi_engine.Flow.AddressOrder.{endpoint_lt_asymm, endpoint_lt_total, endpoint_eq_iff}
use packet_dpi_engine.Flow.Key.{FlowDirection, forward, reverse, FlowKey, create, key_eq}

abbrev pub opposite : FlowDirection → FlowDirection
opposite forward = reverse
opposite reverse = forward

abbrev pub endpoint : IpAddress → ℕ → Endpoint
endpoint ip port = record { ip = ip; port = port }

-- Both directions of a conversation have one key.
pub create_symmetric :
    (a b : IpAddress) (ap bp proto : ℕ)
    → IsWire a
    → IsWire b
    → (create a ap b bp proto).0 ≡ (create b bp a ap proto).0
unfolding create
create_symmetric a b ap bp proto wa wb =
    let x = endpoint a ap in
    let y = endpoint b bp in ground (arith, endpoint_lt_asymm x y, endpoint_lt_total x y wa wb)

-- Between different endpoints, the two directions of a conversation are told apart.
pub create-opposite :
    (a b : IpAddress) (ap bp proto : ℕ)
    → IsWire a
    → IsWire b
    → endpoint a ap ≢ endpoint b bp
    → (create b bp a ap proto).1 ≡ opposite (create a ap b bp proto).1
unfolding create
create-opposite a b ap bp proto wa wb ne =
    let x = endpoint a ap in
    let y = endpoint b bp in ground (arith, endpoint_lt_asymm x y, endpoint_lt_total x y wa wb)

pub key_eq_iff : (a b : FlowKey) → (key_eq a b ≡ true) ↔ (a ≡ b)
unfolding key_eq
key_eq_iff a b = (
  (λ h. ground (arith, endpoint_eq_iff a.src b.src, endpoint_eq_iff a.dst b.dst)),
  λ e. rw e (ground (arith, endpoint_eq_iff b.src b.src, endpoint_eq_iff b.dst b.dst)),
)
