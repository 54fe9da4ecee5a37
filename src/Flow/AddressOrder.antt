-- ===== src/Flow/AddressOrder.antt =====
-- `<` on addresses and endpoints is a strict total order, and `==` is equality.
use packet_dpi_engine.Base.{ℕ, ◌≡◌, refl, ap, true, false, List, [], ◌∷◌, arith, ◌↔◌}
use packet_dpi_engine.Protocols.Types.{to_u32-injective}
use packet_dpi_engine.Flow.Address.{
  IpAddress, no_ip, v4, v6, bytes_eq, bytes_lt, ip_eq, ip_lt, Endpoint, endpoint_eq, endpoint_lt,
  IsWire,
}

bytes_lt_asymm : (xs ys : List ℕ) → bytes_lt xs ys ≡ true → bytes_lt ys xs ≡ false
unfolding bytes_lt
bytes_lt_asymm [] [] h = cc
bytes_lt_asymm [] (y ∷ ys) h = refl
bytes_lt_asymm (x ∷ xs) [] h = cc
bytes_lt_asymm (x ∷ xs) (y ∷ ys) h = ground (arith, bytes_lt_asymm xs ys)

bytes_lt_total : (xs ys : List ℕ) → bytes_lt xs ys ≡ false → bytes_lt ys xs ≡ false → xs ≡ ys
unfolding bytes_lt
bytes_lt_total [] [] h k = refl
bytes_lt_total [] (y ∷ ys) h k = cc
bytes_lt_total (x ∷ xs) [] h k = cc
bytes_lt_total (x ∷ xs) (y ∷ ys) h k = ground (arith, bytes_lt_total xs ys)

bytes_eq_refl : (xs : List ℕ) → bytes_eq xs xs ≡ true
unfolding bytes_eq
bytes_eq_refl [] = refl
bytes_eq_refl (x ∷ xs) = ground (arith, bytes_eq_refl xs)

bytes_eq-eq : (xs ys : List ℕ) → bytes_eq xs ys ≡ true → xs ≡ ys
unfolding bytes_eq
bytes_eq-eq [] [] h = refl
bytes_eq-eq [] (y ∷ ys) h = cc
bytes_eq-eq (x ∷ xs) [] h = cc
bytes_eq-eq (x ∷ xs) (y ∷ ys) h = ground (arith, bytes_eq-eq xs ys)

pub ip_eq_refl : (a : IpAddress) → ip_eq a a ≡ true
unfolding ip_eq
ip_eq_refl no_ip = refl
ip_eq_refl (v4 a) = ground arith
ip_eq_refl (v6 a) = bytes_eq_refl a

pub ip_eq-eq : (a b : IpAddress) → ip_eq a b ≡ true → a ≡ b
unfolding ip_eq
ip_eq-eq no_ip no_ip h = refl
ip_eq-eq (v4 a) (v4 b) h = ground arith
ip_eq-eq (v6 a) (v6 b) h = ap v6 (bytes_eq-eq a b h)
ip_eq-eq no_ip (v4 b) h = cc
ip_eq-eq no_ip (v6 b) h = cc
ip_eq-eq (v4 a) no_ip h = cc
ip_eq-eq (v4 a) (v6 b) h = cc
ip_eq-eq (v6 a) no_ip h = cc
ip_eq-eq (v6 a) (v4 b) h = cc

ip_lt_asymm : (a b : IpAddress) → ip_lt a b ≡ true → ip_lt b a ≡ false
unfolding ip_lt
ip_lt_asymm (v6 a) (v6 b) h = bytes_lt_asymm a b h
ip_lt_asymm (v4 a) (v4 b) h = ground arith
ip_lt_asymm no_ip no_ip h = cc
ip_lt_asymm no_ip (v4 b) h = refl
ip_lt_asymm no_ip (v6 b) h = refl
ip_lt_asymm (v4 a) no_ip h = cc
ip_lt_asymm (v4 a) (v6 b) h = refl
ip_lt_asymm (v6 a) no_ip h = cc
ip_lt_asymm (v6 a) (v4 b) h = cc

ip_lt_total :
    (a b : IpAddress) → IsWire a → IsWire b → ip_lt a b ≡ false → ip_lt b a ≡ false → a ≡ b
unfolding ip_lt
ip_lt_total (v6 a) (v6 b) p q h k = ap v6 (bytes_lt_total a b h k)
ip_lt_total (v4 a) (v4 b) p q h k = ap v4 (to_u32-injective a b p q (ground arith))
ip_lt_total no_ip no_ip p q h k = refl
ip_lt_total no_ip (v4 b) p q h k = cc
ip_lt_total no_ip (v6 b) p q h k = cc
ip_lt_total (v4 a) no_ip p q h k = cc
ip_lt_total (v4 a) (v6 b) p q h k = cc
ip_lt_total (v6 a) no_ip p q h k = cc
ip_lt_total (v6 a) (v4 b) p q h k = cc

pub endpoint_lt_asymm : (a b : Endpoint) → endpoint_lt a b ≡ true → endpoint_lt b a ≡ false
unfolding endpoint_lt
endpoint_lt_asymm a b h = ground (arith, ip_lt_asymm a.ip b.ip, ip_lt_asymm b.ip a.ip)

pub endpoint_lt_total :
    (a b : Endpoint)
    → IsWire a.ip
    → IsWire b.ip
    → endpoint_lt a b ≡ false
    → endpoint_lt b a ≡ false
    → a ≡ b
unfolding endpoint_lt
endpoint_lt_total a b p q h k = ground (arith, ip_lt_total a.ip b.ip p q)

pub endpoint_eq_iff : (a b : Endpoint) → (endpoint_eq a b ≡ true) ↔ (a ≡ b)
unfolding endpoint_eq
endpoint_eq_iff a b =
    ((λ h. ground (arith, ip_eq-eq a.ip b.ip)), λ e. rw e (ground (arith, ip_eq_refl b.ip)))
