-- ===== src/Flow/TableLaws.antt =====
-- The flow table after any packets and clean-ups.
use packet_dpi_engine.Base.{
  ◌+◌, ◌≡◌, inl, inr, refl, sym, ◌∙◌, List, [], ◌∷◌, none, some, arith, length, if◌then◌else◌,
  Bool-cases,
}
use packet_dpi_engine.Flow.Key.{FlowKey, key_eq}
use packet_dpi_engine.Flow.KeyLaws.{key_eq_iff}
use packet_dpi_engine.Flow.Entry.{FlowEntry}
use packet_dpi_engine.Flow.EntryLaws.{IsSound}
use packet_dpi_engine.Flow.Table.{find, put}

abbrev pub Pairs : Type 0
Pairs = List (FlowKey × FlowEntry)

pub find-put :
    (k j : FlowKey) (e : FlowEntry) (t : Pairs)
    → find j (put k e t) ≡ (if key_eq k j then some e else find j t)
unfolding find put
find-put k j e [] = refl
find-put k j e ((i, f) ∷ t) =
    ground (arith, key_eq_iff k j, key_eq_iff i k, key_eq_iff i j, find-put k j e t)

pub length-put :
    (k : FlowKey) (e : FlowEntry) (t : Pairs)
    → length (put k e t) ≡ (elim (find k t) [ none ↦ length t + 1 | some _ ↦ length t ])
unfolding find put
length-put k e [] = omega arith
length-put k e ((i, f) ∷ t) = ground (arith, length-put k e t)

-- No key stands twice, each entry is filed under its own key, and each entry is sound.
abbrev pub IsTable : Pairs → Type 0
IsTable [] = Unit {0}
IsTable ((k, e) ∷ t) = (find k t ≡ none) × (e.key ≡ k) × IsSound e × IsTable t

pub put-IsTable :
    (k : FlowKey) (e : FlowEntry) (t : Pairs)
    → e.key ≡ k
    → IsSound e
    → IsTable t
    → IsTable (put k e t)
unfolding put find
put-IsTable k e [] own sound v = (refl, own, sound, tt)
put-IsTable k e ((i, f) ∷ t) own sound v = elim (Bool-cases (key_eq i k)) [
  | inl same ↦ rw same (v.0, own ∙ sym ((key_eq_iff i k).0 same), sound, v.3)
  | inr other ↦ rw other (
    ground (arith, find-put k i e t, key_eq_iff k i, key_eq_iff i k, v.0),
    v.1,
    v.2,
    put-IsTable k e t own sound v.3,
  )
]

pub find-IsTable :
    (k : FlowKey) (t : Pairs) {e : FlowEntry}
    → IsTable t
    → find k t ≡ some e
    → (e.key ≡ k) × IsSound e
unfolding find
find-IsTable k [] v h = absurd (ground arith)
find-IsTable k ((i, f) ∷ t) {e} v h = elim (Bool-cases (key_eq i k)) [
  | inl same ↦
      let same_entry : f ≡ e = ground arith in
      rw (← same_entry) (v.1 ∙ (key_eq_iff i k).0 same, v.2)
  | inr other ↦ find-IsTable k t v.3 (ground arith)
]
