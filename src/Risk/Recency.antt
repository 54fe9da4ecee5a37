-- ===== src/Risk/Recency.antt =====
-- Lists of addresses without repetition, most recent first.
use packet_dpi_engine.Base.{
  ℕ, zero, suc, ◌+◌, ◌<◌, ◌≡◌, refl, sym, ap, ◌∙◌, Bool, true, false, List, [], ◌∷◌, ◌&&◌, ◌||◌,
  not, length, take, arith, Bool-cases, inl, inr,
}
use packet_dpi_engine.Memory.Views.{take-all}
use packet_dpi_engine.Flow.Address.{IpAddress, ip_eq}
use packet_dpi_engine.Flow.AddressOrder.{ip_eq_refl, ip_eq-eq}
use packet_dpi_engine.Risk.Profiler.{remove, last_host, pop_back}

unfoldable pub member : IpAddress → List IpAddress → Bool
member a [] = false
member a (b ∷ bs) = ip_eq b a || member a bs

abbrev pub Unique : List IpAddress → Type 0
Unique [] = Unit {0}
Unique (a ∷ as') = (member a as' ≡ false) × Unique as'

-- An address that was seen now, in front of those seen before.
unfoldable pub seen_now : IpAddress → List IpAddress → List IpAddress
seen_now a r = a ∷ remove a r

member-remove :
    (j a : IpAddress) (r : List IpAddress) → member j r ≡ false → member j (remove a r) ≡ false
unfolding member remove
member-remove j a [] h = refl
member-remove j a (b ∷ bs) h = ground (arith, h, member-remove j a bs)

-- Removal leaves the others, and takes the one address that is there.
pub member-remove_iff :
    (j a : IpAddress) (r : List IpAddress)
    → Unique r
    → member j (remove a r) ≡ (member j r && not (ip_eq a j))
unfolding member remove
member-remove_iff j a [] u = refl
member-remove_iff j a (b ∷ bs) u = grind (
  arith,
  u.0,
  member-remove_iff j a bs u.1,
  ip_eq-eq a j,
  ip_eq-eq b a,
  ip_eq-eq b j,
  ip_eq_refl a,
  ip_eq_refl b,
  ip_eq_refl j,
)

pub remove-Unique : (a : IpAddress) (r : List IpAddress) → Unique r → Unique (remove a r)
unfolding remove
remove-Unique a [] u = tt
remove-Unique a (b ∷ bs) u = ground (arith, u, member-remove b a bs u.0, remove-Unique a bs u.1)

pub seen_now-Unique : (a : IpAddress) (r : List IpAddress) → Unique r → Unique (seen_now a r)
unfolding seen_now
seen_now-Unique a r u =
    (ground (arith, member-remove_iff a a r u, ip_eq_refl a), remove-Unique a r u)

member-take :
    (n : ℕ) (a : IpAddress) (r : List IpAddress) → member a r ≡ false → member a (take n r) ≡ false
unfolding member
member-take zero a r h = refl
member-take (suc n) a [] h = refl
member-take (suc n) a (b ∷ bs) h = ground (arith, h, member-take n a bs)

pub take-Unique : (n : ℕ) (r : List IpAddress) → Unique r → Unique (take n r)
take-Unique zero r u = tt
take-Unique (suc n) [] u = tt
take-Unique (suc n) (b ∷ bs) u = (member-take n b bs u.0, take-Unique n bs u.1)

-- An address among the first `n`: its removal from them is that from all.
remove-take :
    (n : ℕ) (a : IpAddress) (r : List IpAddress)
    → member a (take (suc n) r) ≡ true
    → remove a (take (suc n) r) ≡ take n (remove a r)
unfolding member remove
remove-take n a [] h = absurd (ground arith)
remove-take zero a (b ∷ bs) h = ground (arith, h)
remove-take (suc n) a (b ∷ bs) h = ground (arith, h, remove-take n a bs)

-- An address that is not among the first `n`: its removal leaves them.
take-remove :
    (n : ℕ) (a : IpAddress) (r : List IpAddress)
    → member a (take n r) ≡ false
    → take n (remove a r) ≡ take n r
unfolding member remove
take-remove zero a r h = refl
take-remove (suc n) a [] h = refl
take-remove (suc n) a (b ∷ bs) h = ground (arith, h, take-remove n a bs)

pop_back-take : (n : ℕ) (r : List IpAddress) → n < length r → pop_back (take (suc n) r) ≡ take n r
unfolding pop_back
pop_back-take n [] h = elim h [ ]
pop_back-take zero (b ∷ bs) h = refl
pop_back-take (suc n) (b ∷ []) h = absurd (omega (arith, h))
pop_back-take (suc n) (b ∷ c ∷ cs) h = ap (λ t. b ∷ t) (pop_back-take n (c ∷ cs) (omega (arith, h)))

member-shorter :
    (n : ℕ) (a : IpAddress) (r : List IpAddress)
    → member a (take (suc n) r) ≡ false
    → member a (take n r) ≡ false
unfolding member
member-shorter zero a r h = refl
member-shorter (suc n) a [] h = refl
member-shorter (suc n) a (b ∷ bs) h = ground (arith, h, member-shorter n a bs)

remove-absent : (a : IpAddress) (r : List IpAddress) → member a r ≡ false → remove a r ≡ r
unfolding member remove
remove-absent a [] h = refl
remove-absent a (b ∷ bs) h = ground (arith, h, remove-absent a bs)

-- The three ways in which a bounded list follows an unbounded one.
pub seen_now-hit :
    (n : ℕ) (a : IpAddress) (r : List IpAddress)
    → member a (take n r) ≡ true
    → a ∷ remove a (take n r) ≡ take n (seen_now a r)
unfolding seen_now member
seen_now-hit zero a r h = absurd (ground (arith, h))
seen_now-hit (suc n) a r h = ap (λ t. a ∷ t) (remove-take n a r h)

pub seen_now-full :
    (n : ℕ) (a : IpAddress) (r : List IpAddress)
    → member a (take (suc n) r) ≡ false
    → n < length r
    → a ∷ pop_back (take (suc n) r) ≡ take (suc n) (seen_now a r)
unfolding seen_now
seen_now-full n a r h full =
    ap (λ t. a ∷ t) (pop_back-take n r full ∙ sym (take-remove n a r (member-shorter n a r h)))

pub seen_now-room :
    (n : ℕ) (a : IpAddress) (r : List IpAddress)
    → member a (take n r) ≡ false
    → length r < n
    → a ∷ take n r ≡ take n (seen_now a r)
unfolding seen_now
seen_now-room zero a r h room = absurd (omega (arith, room))
seen_now-room (suc n) a r h room =
    let all = take-all r (suc n) (omega (arith, room)) in
    let absent = remove-absent a r (ap (member a) (sym all) ∙ h) in
    let fits = take-all r n (omega (arith, room)) in
    ap (λ t. a ∷ t) (all ∙ sym fits ∙ ap (take n) (sym absent))

pub last_host-member : (a : IpAddress) (r : List IpAddress) → member (last_host a r) (a ∷ r) ≡ true
unfolding member last_host
last_host-member a [] = ground (arith, ip_eq_refl a)
last_host-member a (b ∷ bs) = ground (arith, last_host-member b bs)

-- An address that is in the list is not one that is not.
last_host-apart :
    (j a : IpAddress) (r : List IpAddress) (l : IpAddress)
    → member a r ≡ false
    → member l r ≡ true
    → ip_eq a j ≡ true
    → ip_eq l j ≡ false
last_host-apart j a r l absent present same = elim (Bool-cases (ip_eq l j)) [
  | inl also ↦
      let one = ip_eq-eq a j same ∙ sym (ip_eq-eq l j also) in
      absurd (ground (arith, sym absent ∙ ap (λ x. member x r) one ∙ present))
  | inr other ↦ other
]

-- The address that `pop_back` takes.
pub member-pop_back :
    (j a : IpAddress) (r : List IpAddress)
    → Unique (a ∷ r)
    → member j (pop_back (a ∷ r)) ≡ (member j (a ∷ r) && not (ip_eq (last_host a r) j))
unfolding member pop_back last_host
member-pop_back j a [] u = ground arith
member-pop_back j a (b ∷ bs) u =
    let later = member-pop_back j b bs u.1 in
    let apart = last_host-apart j a (b ∷ bs) (last_host b bs) u.0 (last_host-member b bs) in
    ground (arith, later, apart)

pub length-pop_back : (a : IpAddress) (r : List IpAddress) → length (pop_back (a ∷ r)) ≡ length r
unfolding pop_back
length-pop_back a [] = refl
length-pop_back a (b ∷ bs) = ap suc (length-pop_back b bs)

pub length-remove :
    (a : IpAddress) (r : List IpAddress) → member a r ≡ true → length (remove a r) + 1 ≡ length r
unfolding member remove
length-remove a [] h = absurd (ground arith)
length-remove a (b ∷ bs) h = ground (arith, h, length-remove a bs)
