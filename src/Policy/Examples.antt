-- ===== src/Policy/Examples.antt =====
-- The policy engine at work on a few rules.
use birthub_360_innovation.Base.{
  String, true, not, ◌&&◌, ◌⊎◌, [], ◌∷◌, none, some, ◌≡◌, refl, find, any, is_some, if◌then◌else◌,
  ◌↔◌,
}
use birthub_360_innovation.Policy.{Effect, allow, deny, Rule, Context}
use birthub_360_innovation.Policy.Pattern.{matches_action, matches_action_lem, Covers}
use birthub_360_innovation.Policy.Engine.{
  Engine, new, add_rule, applies, denies, allows, evaluate, rule_id, evaluate_lem,
  evaluate-add_rule_deny, matched_rule_id-evaluate,
}
use birthub_360_innovation.Policy.Template.{create_policy_template, readonly, readonly_lem}

abbrev rule : String → String → Effect → Rule
rule id action effect = record {
  id = id;
  action = action;
  effect = effect;
  enabled = none;
  reason = none;
  agent_id = none;
  tenant_id = none;
}

abbrev engine : Engine
engine = new (rule "r1" "tool.*" allow ∷ rule "r2" "tool.db-write" deny ∷ [])

abbrev here : Context
here = record { tenant_id = some "t1" }

evaluate_lem_example : (evaluate engine "agent" "tool.db-write" here).granted ≡ (
    not (any (denies "agent" "tool.db-write" here) engine.rules)
    && any (allows "agent" "tool.db-write" here) engine.rules)
evaluate_lem_example = evaluate_lem engine "agent" "tool.db-write" here

matches_action_lem_example :
    (matches_action "tool.*" "tool.http" ≡ true) ↔ Covers "tool.*" "tool.http"
matches_action_lem_example = matches_action_lem "tool.*" "tool.http"

evaluate-add_rule_deny_example :
    (evaluate (add_rule (rule "r3" "tool.http" deny) engine) "agent" "tool.http" here).granted ≡ (
      not (applies "agent" "tool.http" here (rule "r3" "tool.http" deny))
      && (evaluate engine "agent" "tool.http" here).granted)
evaluate-add_rule_deny_example =
    evaluate-add_rule_deny engine (rule "r3" "tool.http" deny) "agent" "tool.http" here refl

matched_rule_id-evaluate_example :
    (evaluate engine "agent" "tool.db-write" here).matched_rule_id ≡ (
      if is_some (find (denies "agent" "tool.db-write" here) engine.rules)
      then rule_id (find (denies "agent" "tool.db-write" here) engine.rules)
      else rule_id (find (allows "agent" "tool.db-write" here) engine.rules))
matched_rule_id-evaluate_example = matched_rule_id-evaluate engine "agent" "tool.db-write" here

abbrev agent : String
agent = "agent"

abbrev http : String
http = "tool.http"

readonly_lem_example :
    ((evaluate (new (create_policy_template readonly "t1" agent)) agent http here).granted ≡ true)
    ↔ ((here.tenant_id ≡ some "t1") × (agent ≡ agent) × ((http ≡ http) ⊎ (http ≡ "tool.db-read")))
readonly_lem_example = readonly_lem "t1" agent agent http here
