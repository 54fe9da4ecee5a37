-- ===== src/Rules/Engine.antt =====
-- `RuleEngine` of include/dpi/rules/rule_engine.h and src/rules/rule_engine.cpp. The snapshot that
-- readers load is made by the constructor and is never null.
use packet_dpi_engine.Base.{
  ℕ, Bool, true, List, [], ◌∷◌, ◌++◌, map, ◌||◌, not, if◌then◌else◌, length,
}
use packet_dpi_engine.Protocols.Types.{ParsedPacket}
use packet_dpi_engine.Dpi.Types.{L7Metadata}
use packet_dpi_engine.Flow.Address.{is_valid_ip}
use packet_dpi_engine.Flow.Key.{from_packet}
use packet_dpi_engine.Flow.Entry.{FlowEntry}
use packet_dpi_engine.Flow.Table.{PolicyEngine}
use packet_dpi_engine.Rules.Types.{Rule, RuleAction, allow, PolicyVerdict}
use packet_dpi_engine.Rules.Literals.{reason_invalid}
use packet_dpi_engine.Rules.Set.{
  CompiledRuleSet, compile_rule, new_rule_set, evaluate_l3_l4, evaluate_l7, default_verdict,
}

pub record RuleEngine : Type 0 where
  pub raw_rules : List Rule
  pub default_action : RuleAction
  pub active_rules : CompiledRuleSet

unfoldable pub active_of : List Rule → RuleAction → CompiledRuleSet
active_of rules action = new_rule_set (map compile_rule rules) action

unfoldable pub rebuild_active_ruleset : RuleEngine → RuleEngine
rebuild_active_ruleset e = record e { active_rules = active_of e.raw_rules e.default_action }

-- The constructor.
unfoldable pub new_engine : RuleEngine
new_engine = record { raw_rules = []; default_action = allow; active_rules = active_of [] allow }

unfoldable pub add_rule : RuleEngine → Rule → RuleEngine × Bool
add_rule e r = (rebuild_active_ruleset (record e { raw_rules = e.raw_rules ++ (r ∷ []) }), true)

unfoldable pub clear_rules : RuleEngine → RuleEngine
clear_rules e = rebuild_active_ruleset (record e { raw_rules = [] })

unfoldable pub set_default_action : RuleEngine → RuleAction → RuleEngine
set_default_action e action = rebuild_active_ruleset (record e { default_action = action })

-- What `load_rules_from_json` and `load_rules_from_file` do with the result of the parser.
pub record RuleLoadResult : Type 0 where
  pub success : Bool
  pub rules : List Rule
  pub default_action : RuleAction

unfoldable pub load_rules : RuleEngine → RuleLoadResult → RuleEngine
load_rules e res =
    if res.success
    then rebuild_active_ruleset
        (record e { raw_rules = res.rules; default_action = res.default_action })
    else e

unfoldable pub rule_count : RuleEngine → ℕ
rule_count e = length e.active_rules.rules

-- `evaluate(const FlowEntry&)`.
unfoldable pub evaluate_flow : RuleEngine → FlowEntry → PolicyVerdict
evaluate_flow e flow =
    if flow.l7_meta.is_classified || flow.dpi_complete
    then evaluate_l7 e.active_rules flow.key flow.l7_meta
    else evaluate_l3_l4 e.active_rules flow.key

-- `evaluate(const ParsedPacket&, const L7Metadata&)`.
unfoldable pub evaluate_packet : RuleEngine → ParsedPacket → L7Metadata → PolicyVerdict
evaluate_packet e packet l7_meta =
    let key = (from_packet packet).0 in
    if not (is_valid_ip key.src.ip) || not (is_valid_ip key.dst.ip)
    then default_verdict e.active_rules.default_action reason_invalid true
    else if l7_meta.is_classified
    then evaluate_l7 e.active_rules key l7_meta
    else evaluate_l3_l4 e.active_rules key

-- The engine as the flow table calls it.
unfoldable pub policy_of : RuleEngine → PolicyEngine
policy_of e = record {
  evaluate_l3_l4 = evaluate_l3_l4 e.active_rules;
  evaluate_l7 = evaluate_l7 e.active_rules;
}
