-- ===== src/Rules/Types.antt =====
-- `RuleAction`, `PolicyVerdict` and `Rule` of include/dpi/rules/rule_types.h.
use packet_dpi_engine.Base.{ℕ, Bool, true, false, List, []}

pub data RuleAction : Type 0 where
  allow block alert log : RuleAction

pub record PolicyVerdict : Type 0 where
  pub action : RuleAction
  pub matched_rule_id : ℕ
  pub matched_rule_name : List ℕ
  pub reason : List ℕ
  pub is_final : Bool

abbrev pub new_verdict : PolicyVerdict
new_verdict = record {
  action = allow;
  matched_rule_id = 0;
  matched_rule_name = [];
  reason = [];
  is_final = false;
}

abbrev pub is_block : RuleAction → Bool
is_block block = true
is_block _ = false

abbrev pub is_blocked : PolicyVerdict → Bool
is_blocked v = is_block v.action

-- A rule as it is written, its criteria still text.
pub record Rule : Type 0 where
  pub id : ℕ
  pub name : List ℕ
  pub priority : ℕ
  pub enabled : Bool
  pub action : RuleAction
  pub src_ip_cidr : List ℕ
  pub dst_ip_cidr : List ℕ
  pub src_port_range : List ℕ
  pub dst_port_range : List ℕ
  pub transport_protocol : List ℕ
  pub domain_pattern : List ℕ
  pub app_protocol : List ℕ
