-- ===== src/Rules/SetLaws.antt =====
-- The rule set: which rule decides.
use packet_dpi_engine.Base.{
  ◌<◌, ◌≤◌, ◌==◌, ◌≡◌, refl, ◌⊎◌, inl, inr, Bool, true, false, List, [], ◌∷◌, arith, Bool-cases,
}
use packet_dpi_engine.Dpi.Types.{L7Metadata}
use packet_dpi_engine.Flow.Key.{FlowKey}
use packet_dpi_engine.Rules.Types.{RuleAction, PolicyVerdict}
use packet_dpi_engine.Rules.Literals.{reason_default}
use packet_dpi_engine.Rules.Set.{
  CompiledRule, CompiledRuleSet, precedes, stable_sort, new_rule_set, first_match, match_endpoints,
  verdict_l7, default_verdict, applies_l7, evaluate_l7,
}
use packet_dpi_engine.Rules.Sorting.{
  All, In, precedes_irrefl, NotBefore, Sorted, All-mono, stable_sort-Sorted, All-unsort, In-unsort,
}

-- The matching of the endpoints is the same in both directions of a conversation.
pub match_endpoints_symmetric :
    (r : CompiledRule) (key : FlowKey)
    → match_endpoints r key ≡ match_endpoints r (record key { src = key.dst; dst = key.src })
unfolding match_endpoints
match_endpoints_symmetric r key = ground arith

-- A lower or equal priority number, and on equal priorities a lower or equal rule number.
pub data Least (r s : CompiledRule) : Type 0 where
  by_priority : r.priority < s.priority → Least r s
  by_id : r.priority ≡ s.priority → r.id ≤ s.id → Least r s

NotBefore-Least : (r s : CompiledRule) → NotBefore r s → Least r s
unfolding precedes
NotBefore-Least r s h = elim (Bool-cases (r.priority == s.priority)) [
  | inl e ↦ by_id (ground arith) (ground arith)
  | inr e ↦ by_priority (ground arith)
]

-- What decides: no rule applies and the verdict is the default, or a rule applies, the verdict is
-- its own, and it is the least of the rules that apply, by priority and then by number.
abbrev pub Decides :
    (CompiledRule → Bool)
    → (CompiledRule → PolicyVerdict)
    → PolicyVerdict
    → List CompiledRule
    → PolicyVerdict
    → Type 0
Decides applies verdict otherwise rs v =
    (All (λ r. applies r ≡ false) rs × (v ≡ otherwise))
    ⊎ ((r : CompiledRule) × In r rs
        × (applies r ≡ true)
        × (v ≡ verdict r)
        × All (λ s. applies s ≡ true → Least r s) rs)

first_match-Sorted :
    (applies : CompiledRule → Bool) (verdict : CompiledRule → PolicyVerdict)
    (otherwise : PolicyVerdict) (rs : List CompiledRule)
    → Sorted rs
    → Decides applies verdict otherwise rs (first_match applies verdict otherwise rs)
unfolding first_match
first_match-Sorted applies verdict otherwise [] v = inl (tt, refl)
first_match-Sorted applies verdict otherwise (r ∷ rs) (below, v) = elim (Bool-cases (applies r)) [
  | inl e ↦ inr (
    r,
    inl refl,
    e,
    rw e refl,
    (
      (λ _. NotBefore-Least r r (precedes_irrefl r)),
      All-mono rs (λ s h _. NotBefore-Least r s h) below,
    ),
  )
  | inr e ↦ elim (first_match-Sorted applies verdict otherwise rs v) [
    | inl (none_applies, is_default) ↦ inl ((e, none_applies), rw e is_default)
    | inr (s, among, applied, verdict_eq, least) ↦
        inr (s, inr among, applied, rw e verdict_eq, ((λ h. cc), least))
  ]
]

first_match-Decides :
    (applies : CompiledRule → Bool) (verdict : CompiledRule → PolicyVerdict)
    (otherwise : PolicyVerdict) (rs : List CompiledRule)
    → Decides applies verdict otherwise rs (first_match applies verdict otherwise (stable_sort rs))
first_match-Decides applies verdict otherwise rs =
    elim (first_match-Sorted applies verdict otherwise (stable_sort rs) (stable_sort-Sorted rs)) [
      | inl (none_applies, is_default) ↦ inl (All-unsort _ rs none_applies, is_default)
      | inr (r, among, applied, verdict_eq, least) ↦
          inr (r, In-unsort r rs among, applied, verdict_eq, All-unsort _ rs least)
    ]

-- With the metadata of layer 7, the verdict of a rule set is that of an enabled rule of the set that
-- matches the flow, its host name and its protocol, the least of them by priority and then by
-- number; and if there is no such rule, the default action, which is then final.
pub evaluate_l7-Decides :
    (rs : List CompiledRule) (action : RuleAction) (key : FlowKey) (l7_meta : L7Metadata)
    → Decides
        (applies_l7 key l7_meta)
        verdict_l7
        (default_verdict action reason_default true)
        rs
        (evaluate_l7 (new_rule_set rs action) key l7_meta)
unfolding evaluate_l7 new_rule_set
evaluate_l7-Decides rs action key l7_meta =
    first_match-Decides (applies_l7 key l7_meta) verdict_l7 _ rs

first_match-final :
    (applies : CompiledRule → Bool) (otherwise : PolicyVerdict) (rs : List CompiledRule)
    → otherwise.is_final ≡ true
    → (first_match applies verdict_l7 otherwise rs).is_final ≡ true
unfolding first_match verdict_l7
first_match-final applies otherwise [] h = h
first_match-final applies otherwise (r ∷ rs) h =
    ground (arith, first_match-final applies otherwise rs h)

pub evaluate_l7-is_final :
    (s : CompiledRuleSet) (key : FlowKey) (l7_meta : L7Metadata)
    → (evaluate_l7 s key l7_meta).is_final ≡ true
unfolding evaluate_l7 default_verdict
evaluate_l7-is_final s key l7_meta = first_match-final (applies_l7 key l7_meta) _ s.rules refl
