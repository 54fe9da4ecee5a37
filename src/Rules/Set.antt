-- ===== src/Rules/Set.antt =====
-- `CompiledRule`, `CompiledRuleSet` and the compilation of a rule in src/rules/rule_engine.cpp.
use packet_dpi_engine.Base.{
  ℕ, Bool, true, false, List, [], ◌∷◌, ◌++◌, ◌==◌, ltb, ◌&&◌, ◌||◌, not, if◌then◌else◌,
}
use packet_dpi_engine.Text.{Text, upper, text_eq, is_wildcard}
use packet_dpi_engine.Dpi.Types.{AppProtocol, unknown, tls, http, dns, app_protocol_eq, L7Metadata}
use packet_dpi_engine.Flow.Address.{Endpoint}
use packet_dpi_engine.Flow.Key.{FlowKey}
use packet_dpi_engine.Rules.Types.{Rule, RuleAction, PolicyVerdict}
use packet_dpi_engine.Rules.Literals.{
  text_tcp, text_udp, text_6, text_17, text_tls, text_http, text_dns, reason_l3_l4, reason_l7,
  reason_provisional, reason_default,
}
use packet_dpi_engine.Rules.Ip.{IpMatcher, parse_ip, matches_ip}
use packet_dpi_engine.Rules.Port.{PortMatcher, parse_ports, matches_port}
use packet_dpi_engine.Rules.Domain.{DomainMatcher, parse_domain, matches_domain}

pub record CompiledRule : Type 0 where
  pub id : ℕ
  pub name : Text
  pub priority : ℕ
  pub enabled : Bool
  pub action : RuleAction
  pub src_ip : IpMatcher
  pub dst_ip : IpMatcher
  pub src_port : PortMatcher
  pub dst_port : PortMatcher
  pub protocol : ℕ
  pub domain : DomainMatcher
  pub app_protocol : AppProtocol
  pub match_any_app : Bool
  pub has_l7_criteria : Bool

unfoldable pub parse_protocol_str : Text → ℕ
unfolding is_wildcard text_eq upper
parse_protocol_str s =
    if is_wildcard s
    then 0
    else if text_eq (upper s) text_tcp || text_eq (upper s) text_6
    then 6
    else if text_eq (upper s) text_udp || text_eq (upper s) text_17
    then 17
    else 0

-- The protocol, and whether any one matches.
unfoldable pub parse_app_protocol_str : Text → AppProtocol × Bool
unfolding is_wildcard text_eq upper
parse_app_protocol_str s =
    if is_wildcard s
    then (unknown, true)
    else if text_eq (upper s) text_tls
    then (tls, false)
    else if text_eq (upper s) text_http
    then (http, false)
    else if text_eq (upper s) text_dns
    then (dns, false)
    else (unknown, false)

unfoldable pub compile_rule : Rule → CompiledRule
unfolding parse_ip parse_ports parse_protocol_str parse_domain parse_app_protocol_str
compile_rule r =
    let domain = parse_domain r.domain_pattern in
    let (app_proto, any_app) = parse_app_protocol_str r.app_protocol in
    record {
      id = r.id;
      name = r.name;
      priority = r.priority;
      enabled = r.enabled;
      action = r.action;
      src_ip = parse_ip r.src_ip_cidr;
      dst_ip = parse_ip r.dst_ip_cidr;
      src_port = parse_ports r.src_port_range;
      dst_port = parse_ports r.dst_port_range;
      protocol = parse_protocol_str r.transport_protocol;
      domain = domain;
      app_protocol = app_proto;
      match_any_app = any_app;
      has_l7_criteria = not domain.is_any || not any_app;
    }

pub record CompiledRuleSet : Type 0 where
  pub rules : List CompiledRule
  pub default_action : RuleAction

-- The order of the sort: the lower number first, then the lower id.
unfoldable pub precedes : CompiledRule → CompiledRule → Bool
precedes a b = if not (a.priority == b.priority) then ltb a.priority b.priority else ltb a.id b.id

-- `std::stable_sort`, as an insertion sort: equal rules keep their order.
unfoldable pub insert : CompiledRule → List CompiledRule → List CompiledRule
insert r [] = r ∷ []
insert r (s ∷ ss) = let rest = insert r ss in if precedes s r then s ∷ rest else r ∷ s ∷ ss

unfoldable pub stable_sort : List CompiledRule → List CompiledRule
unfolding insert
stable_sort [] = []
stable_sort (r ∷ rs) = insert r (stable_sort rs)

-- The constructor.
unfoldable pub new_rule_set : List CompiledRule → RuleAction → CompiledRuleSet
new_rule_set rs action = record { rules = stable_sort rs; default_action = action }

-- One direction of `match_endpoints`.
unfoldable pub match_direction : CompiledRule → Endpoint → Endpoint → Bool
match_direction r src dst =
    (matches_ip r.src_ip src.ip && matches_ip r.dst_ip dst.ip)
    && (matches_port r.src_port src.port && matches_port r.dst_port dst.port)

unfoldable pub match_endpoints : CompiledRule → FlowKey → Bool
unfolding match_direction
match_endpoints r key =
    if not (r.protocol == 0) && not (r.protocol == key.protocol)
    then false
    else if match_direction r key.src key.dst
    then true
    else match_direction r key.dst key.src

unfoldable pub verdict_l3_l4 : CompiledRule → PolicyVerdict
verdict_l3_l4 r = record {
  action = r.action;
  matched_rule_id = r.id;
  matched_rule_name = r.name;
  reason = reason_l3_l4 ++ r.name;
  is_final = true;
}

unfoldable pub verdict_l7 : CompiledRule → PolicyVerdict
verdict_l7 r = record {
  action = r.action;
  matched_rule_id = r.id;
  matched_rule_name = r.name;
  reason = if r.has_l7_criteria then reason_l7 ++ r.name else reason_l3_l4 ++ r.name;
  is_final = true;
}

-- The verdict when no rule matches.
unfoldable pub default_verdict : RuleAction → Text → Bool → PolicyVerdict
default_verdict action reason is_final = record {
  action = action;
  matched_rule_id = 0;
  matched_rule_name = [];
  reason = reason;
  is_final = is_final;
}

-- The tests on one rule, in the order of the loop.
unfoldable pub applies_l3_l4 : FlowKey → CompiledRule → Bool
applies_l3_l4 key r =
    if not r.enabled then false else if r.has_l7_criteria then false else match_endpoints r key

unfoldable pub applies_l7 : FlowKey → L7Metadata → CompiledRule → Bool
applies_l7 key l7_meta r =
    if not r.enabled
    then false
    else if not (match_endpoints r key)
    then false
    else if not r.domain.is_any && not (matches_domain r.domain l7_meta.hostname)
    then false
    else not (not r.match_any_app && not (app_protocol_eq r.app_protocol l7_meta.protocol))

-- The loop of both: the verdict of the first rule that applies, or the default.
unfoldable pub first_match :
    (CompiledRule → Bool)
    → (CompiledRule → PolicyVerdict)
    → PolicyVerdict
    → List CompiledRule
    → PolicyVerdict
first_match applies verdict otherwise [] = otherwise
first_match applies verdict otherwise (r ∷ rs) =
    let rest = first_match applies verdict otherwise rs in if applies r then verdict r else rest

unfoldable pub evaluate_l3_l4 : CompiledRuleSet → FlowKey → PolicyVerdict
unfolding first_match
evaluate_l3_l4 s key =
    first_match (applies_l3_l4 key) verdict_l3_l4
      (default_verdict s.default_action reason_provisional false) s.rules

unfoldable pub evaluate_l7 : CompiledRuleSet → FlowKey → L7Metadata → PolicyVerdict
unfolding first_match
evaluate_l7 s key l7_meta =
    first_match (applies_l7 key l7_meta) verdict_l7
      (default_verdict s.default_action reason_default true) s.rules
