-- ===== src/Rules/EngineLaws.antt =====
-- The rule engine after any changes of its configuration.
use packet_dpi_engine.Base.{◌≡◌, List, [], ◌∷◌}
use packet_dpi_engine.Rules.Types.{Rule, RuleAction}
use packet_dpi_engine.Rules.Engine.{
  RuleEngine, RuleLoadResult, active_of, add_rule, clear_rules, set_default_action, load_rules,
}

-- A call that changes the configuration.
pub data Change : Type 0 where
  add : Rule → Change
  clear : Change
  set_default : RuleAction → Change
  load : RuleLoadResult → Change

unfoldable pub apply : RuleEngine → Change → RuleEngine
apply e (add r) = (add_rule e r).0
apply e clear = clear_rules e
apply e (set_default a) = set_default_action e a
apply e (load res) = load_rules e res

unfoldable pub apply_all : RuleEngine → List Change → RuleEngine
apply_all e [] = e
apply_all e (c ∷ cs) = apply_all (apply e c) cs

-- The snapshot that readers see is the compiled form of the rules and the default that are set.
abbrev pub IsCurrent : RuleEngine → Type 0
IsCurrent e = e.active_rules ≡ active_of e.raw_rules e.default_action
