-- ===== src/Tests/RuleRuns.antt =====
-- The theorems on `Rules` at a set of two rules.
use packet_dpi_engine.Base.{◌↔◌, ◌≡◌, ◌≢◌, List, [], ◌∷◌, true, none}
use packet_dpi_engine.Dpi.Types.{new_l7}
use packet_dpi_engine.Flow.Address.{v4}
use packet_dpi_engine.Flow.Key.{FlowKey}
use packet_dpi_engine.Rules.Types.{Rule, block, allow}
use packet_dpi_engine.Rules.Literals.{reason_default, text_tcp}
use packet_dpi_engine.Rules.Domain.{matches_suffix, glob_loop, glob_fuel, glob_start}
use packet_dpi_engine.Rules.DomainLaws.{IsUnder, matches_suffix_iff}
use packet_dpi_engine.Rules.GlobLaws.{glob_match-ends}
use packet_dpi_engine.Rules.Set.{
  CompiledRule, compile_rule, new_rule_set, match_endpoints, applies_l7, verdict_l7,
  default_verdict, evaluate_l7,
}
use packet_dpi_engine.Rules.SetLaws.{Decides, match_endpoints_symmetric, evaluate_l7-Decides}
use packet_dpi_engine.Tests.Packets.{host_a, host_b}

-- Blocks TCP to port 80 of 10.0.0.0/8.
abbrev block_web : Rule
block_web = record {
  id = 1;
  name = [];
  priority = 20;
  enabled = true;
  action = block;
  src_ip_cidr = [];
  dst_ip_cidr = 49 ∷ 48 ∷ 46 ∷ 48 ∷ 46 ∷ 48 ∷ 46 ∷ 48 ∷ 47 ∷ 56 ∷ [];
  src_port_range = [];
  dst_port_range = 56 ∷ 48 ∷ [];
  transport_protocol = text_tcp;
  domain_pattern = [];
  app_protocol = [];
}

abbrev allow_all : Rule
allow_all = record block_web {
  id = 2;
  priority = 50;
  action = allow;
  dst_ip_cidr = [];
  dst_port_range = [];
}

abbrev two_rules : List CompiledRule
two_rules = compile_rule allow_all ∷ compile_rule block_web ∷ []

abbrev web_key : FlowKey
web_key = record {
  src = record { ip = v4 host_a; port = 5000 };
  dst = record { ip = v4 host_b; port = 80 };
  protocol = 6;
}

match_endpoints_symmetric_example :
    match_endpoints (compile_rule block_web) web_key
    ≡ match_endpoints
        (compile_rule block_web)
        (record web_key { src = web_key.dst; dst = web_key.src })
match_endpoints_symmetric_example = match_endpoints_symmetric (compile_rule block_web) web_key

evaluate_l7-Decides_example :
    Decides
      (applies_l7 web_key new_l7)
      verdict_l7
      (default_verdict allow reason_default true)
      two_rules
      (evaluate_l7 (new_rule_set two_rules allow) web_key new_l7)
evaluate_l7-Decides_example = evaluate_l7-Decides two_rules allow web_key new_l7

glob_match-ends_example :
    glob_loop
      (glob_fuel (97 ∷ 98 ∷ 98 ∷ []) (42 ∷ 98 ∷ []))
      (glob_start (97 ∷ 98 ∷ 98 ∷ []) (42 ∷ 98 ∷ []))
    ≢ none
glob_match-ends_example = glob_match-ends (97 ∷ 98 ∷ 98 ∷ []) (42 ∷ 98 ∷ [])

-- "w.io" under "io".
matches_suffix_iff_example :
    (matches_suffix (105 ∷ 111 ∷ []) (119 ∷ 46 ∷ 105 ∷ 111 ∷ []) ≡ true)
    ↔ IsUnder (105 ∷ 111 ∷ []) (119 ∷ 46 ∷ 105 ∷ 111 ∷ [])
matches_suffix_iff_example = matches_suffix_iff (105 ∷ 111 ∷ []) (119 ∷ 46 ∷ 105 ∷ 111 ∷ [])
