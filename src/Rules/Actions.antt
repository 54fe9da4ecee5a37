-- ===== src/Rules/Actions.antt =====
-- `rule_action_to_string` and `string_to_rule_action` of src/rules/rule_types.cpp.
use packet_dpi_engine.Base.{ℕ, ◌-◌, ◌≡◌, refl, leb, ◌&&◌, ◌||◌, if◌then◌else◌, map}
use packet_dpi_engine.Text.{Text, codes, text_eq}
use packet_dpi_engine.Rules.Types.{RuleAction, allow, block, alert, log}

unfoldable pub rule_action_to_string : RuleAction → Text
rule_action_to_string allow = codes "ALLOW"
rule_action_to_string block = codes "BLOCK"
rule_action_to_string alert = codes "ALERT"
rule_action_to_string log = codes "LOG"

-- `toupper` in the "C" locale.
unfoldable pub to_upper : ℕ → ℕ
to_upper c = if leb 97 c && leb c 122 then c - 32 else c

unfoldable pub action_of : Text → RuleAction
unfolding text_eq
action_of upper =
    if text_eq upper (codes "BLOCK") || text_eq upper (codes "DROP") || text_eq upper (codes "DENY")
    then block
    else if text_eq upper (codes "ALERT")
    then alert
    else if text_eq upper (codes "LOG")
    then log
    else allow

unfoldable pub string_to_rule_action : Text → RuleAction
unfolding action_of to_upper
string_to_rule_action str = action_of (map to_upper str)

-- The text of an action is read back.
string_to_rule_action-rule_action_to_string :
    (a : RuleAction) → string_to_rule_action (rule_action_to_string a) ≡ a
unfolding rule_action_to_string string_to_rule_action
string_to_rule_action-rule_action_to_string allow = refl
string_to_rule_action-rule_action_to_string block = refl
string_to_rule_action-rule_action_to_string alert = refl
string_to_rule_action-rule_action_to_string log = refl
