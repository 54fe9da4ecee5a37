-- ===== src/Rules/Sorting.antt =====
-- The stable sort of a rule set: what comes out is sorted, and has the rules that went in.
use packet_dpi_engine.Base.{
  ◌≡◌, refl, sym, subst, ◌⊎◌, inl, inr, true, false, List, [], ◌∷◌, arith, Bool-cases,
}
use packet_dpi_engine.Rules.Set.{CompiledRule, precedes, insert, stable_sort}

abbrev pub All {ℓ κ} : {A : Type ℓ} → (A → Type κ) → List A → Type κ
All P [] = Unit
All P (x ∷ xs) = P x × All P xs

abbrev pub In : CompiledRule → List CompiledRule → Type 0
In a [] = ⊥
In a (x ∷ xs) = (a ≡ x) ⊎ In a xs

precedes_asym : (a b : CompiledRule) → precedes a b ≡ true → precedes b a ≡ false
unfolding precedes
precedes_asym a b h = ground arith

pub precedes_irrefl : (a : CompiledRule) → precedes a a ≡ false
unfolding precedes
precedes_irrefl a = ground arith

-- Not to come before is transitive.
precedes_negative :
    (t s r : CompiledRule) → precedes t s ≡ false → precedes s r ≡ false → precedes t r ≡ false
unfolding precedes
precedes_negative t s r h k = ground arith

abbrev pub NotBefore : CompiledRule → CompiledRule → Type 0
NotBefore r s = precedes s r ≡ false

abbrev pub Sorted : List CompiledRule → Type 0
Sorted [] = Unit {0}
Sorted (r ∷ rs) = All (NotBefore r) rs × Sorted rs

pub All-mono {ℓ κ μ} :
    {A : Type ℓ} {P : A → Type κ} {Q : A → Type μ} (xs : List A)
    → ((x : A) → P x → Q x)
    → All P xs
    → All Q xs
All-mono [] f h = tt
All-mono (x ∷ xs) f (p, h) = (f x p, All-mono xs f h)

insert-later :
    (r s : CompiledRule) (ss : List CompiledRule)
    → precedes s r ≡ true
    → insert r (s ∷ ss) ≡ s ∷ insert r ss
unfolding insert
insert-later r s ss e = rw e refl

insert-here :
    (r s : CompiledRule) (ss : List CompiledRule)
    → precedes s r ≡ false
    → insert r (s ∷ ss) ≡ r ∷ s ∷ ss
unfolding insert
insert-here r s ss e = rw e refl

All-insert {κ} :
    (P : CompiledRule → Type κ) (r : CompiledRule) (rs : List CompiledRule)
    → P r
    → All P rs
    → All P (insert r rs)
unfolding insert
All-insert P r [] p h = (p, tt)
All-insert P r (s ∷ ss) p h = elim (Bool-cases (precedes s r)) [
  | inl e ↦ subst (All P) (sym (insert-later r s ss e)) (h.0, All-insert P r ss p h.1)
  | inr e ↦ subst (All P) (sym (insert-here r s ss e)) (p, h)
]

All-uninsert {κ} :
    (P : CompiledRule → Type κ) (r : CompiledRule) (rs : List CompiledRule)
    → All P (insert r rs)
    → P r × All P rs
unfolding insert
All-uninsert P r [] h = h
All-uninsert P r (s ∷ ss) h = elim (Bool-cases (precedes s r)) [
  | inl e ↦
      let h' = subst (All P) (insert-later r s ss e) h in
      let rest = All-uninsert P r ss h'.1 in (rest.0, (h'.0, rest.1))
  | inr e ↦ subst (All P) (insert-here r s ss e) h
]

In-insert : (a r : CompiledRule) (rs : List CompiledRule) → In a (insert r rs) → In a (r ∷ rs)
unfolding insert
In-insert a r [] h = h
In-insert a r (s ∷ ss) h = elim (Bool-cases (precedes s r)) [
  | inl e ↦ elim (subst (In a) (insert-later r s ss e) h) [
    | inl same ↦ inr (inl same)
    | inr later ↦ swap (In-insert a r ss later)
  ]
  | inr e ↦ subst (In a) (insert-here r s ss e) h
]
  where
    swap : In a (r ∷ ss) → In a (r ∷ s ∷ ss)
    swap (inl same) = inl same
    swap (inr rest) = inr (inr rest)

insert-Sorted : (r : CompiledRule) (rs : List CompiledRule) → Sorted rs → Sorted (insert r rs)
unfolding insert
insert-Sorted r [] v = (tt, tt)
insert-Sorted r (s ∷ ss) v = elim (Bool-cases (precedes s r)) [
  | inl e ↦
      subst Sorted (sym (insert-later r s ss e))
        (All-insert (NotBefore s) r ss (precedes_asym s r e) v.0, insert-Sorted r ss v.1)
  | inr e ↦
      subst Sorted (sym (insert-here r s ss e))
        ((e, All-mono ss (λ t h. precedes_negative t s r h e) v.0), v)
]

pub stable_sort-Sorted : (rs : List CompiledRule) → Sorted (stable_sort rs)
unfolding stable_sort
stable_sort-Sorted [] = tt
stable_sort-Sorted (r ∷ rs) = insert-Sorted r (stable_sort rs) (stable_sort-Sorted rs)

pub All-unsort {κ} :
    (P : CompiledRule → Type κ) (rs : List CompiledRule) → All P (stable_sort rs) → All P rs
unfolding stable_sort
All-unsort P [] h = tt
All-unsort P (r ∷ rs) h =
    let split = All-uninsert P r (stable_sort rs) h in (split.0, All-unsort P rs split.1)

pub In-unsort : (a : CompiledRule) (rs : List CompiledRule) → In a (stable_sort rs) → In a rs
unfolding stable_sort
In-unsort a [] h = h
In-unsort a (r ∷ rs) h = elim (In-insert a r (stable_sort rs) h) [
  | inl same ↦ inl same
  | inr later ↦ inr (In-unsort a rs later)
]
