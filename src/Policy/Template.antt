-- ===== src/Policy/Template.antt =====
-- `templateRules` and `createPolicyTemplate`.
use birthub_360_innovation.Base.{
  ℕ, String, true, false, ◌&&◌, List, [], ◌∷◌, str_eq, ◌≡◌, refl, arith, ◌↔◌, Bool-cases, inl, inr,
  eq_iff, ◌⊎◌, sym, ◌∙◌, Option, none, some, opt_str_eq, str_append, decimal, ◌+◌,
}
use birthub_360_innovation.Policy.{Effect, allow, deny, Rule, Context}
use birthub_360_innovation.Policy.Pattern.{matches_action, has_star, codes}
use birthub_360_innovation.Policy.Engine.{
  new, evaluate, evaluate_lem, applies, is_rule_enabled, matches_scope,
}

pub data Template : Type 0 where
  admin readonly standard : Template

abbrev pub template_name : Template → String
template_name admin = "admin"
template_name readonly = "readonly"
template_name standard = "standard"

-- The action, the effect and the reason of a rule of a template.
pub record TemplateRule : Type 0 where
  pub action : String
  pub effect : Effect
  pub reason : String

abbrev pub template_rules : Template → List TemplateRule
template_rules readonly =
    record {
      action = "tool.http";
      effect = allow;
      reason = "Read-only template allows HTTP reads.";
    }
    ∷ record {
      action = "tool.db-read";
      effect = allow;
      reason = "Read-only template allows query-only access.";
    }
    ∷ record {
      action = "tool.db-write";
      effect = deny;
      reason = "Read-only template blocks mutations.";
    }
    ∷ record {
      action = "tool.send-email";
      effect = deny;
      reason = "Read-only template blocks external messages.";
    }
    ∷ []
template_rules standard =
    record { action = "tool.http"; effect = allow; reason = "Standard template allows HTTP tool." }
    ∷ record {
      action = "tool.db-read";
      effect = allow;
      reason = "Standard template allows read access.";
    }
    ∷ record {
      action = "tool.db-write";
      effect = allow;
      reason = "Standard template allows controlled writes.";
    }
    ∷ record {
      action = "tool.send-email";
      effect = allow;
      reason = "Standard template allows email notifications.";
    }
    ∷ []
template_rules admin =
    record { action = "tool.*"; effect = allow; reason = "Admin template grants full tool access." }
    ∷ []

-- The `map`, from the index `i` on.
unfoldable pub number_rules : Template → String → String → ℕ → List TemplateRule → List Rule
number_rules template tenant_id agent_id i [] = []
number_rules template tenant_id agent_id i (r ∷ rs) =
    record {
      id = str_append (str_append (template_name template) "-") (decimal (i + 1));
      action = r.action;
      effect = r.effect;
      enabled = none;
      reason = some r.reason;
      agent_id = some agent_id;
      tenant_id = some tenant_id;
    }
    ∷ number_rules template tenant_id agent_id (i + 1) rs

unfoldable pub create_policy_template : Template → String → String → List Rule
unfolding number_rules
create_policy_template template tenant_id agent_id =
    number_rules template tenant_id agent_id 0 (template_rules template)

exact_match :
    (pattern action : String)
    → str_eq pattern "*" ≡ false
    → has_star (codes pattern) ≡ false
    → matches_action pattern action ≡ str_eq pattern action
unfolding matches_action
exact_match pattern action n h = rw (n, h)

distinct_texts :
    (a b action : String) → str_eq a b ≡ false → (str_eq a action && str_eq b action) ≡ false
distinct_texts a b action n = elim (Bool-cases (str_eq a action && str_eq b action)) [
  | inl both ↦
      let p : a ≡ action = (eq_iff a action).0 (ground arith) in
      let q : b ≡ action = (eq_iff b action).0 (ground arith) in cc ((eq_iff a b).1 (p ∙ sym q), n)
  | inr e ↦ e
]

in_scope_lem :
    (tenant agent_id agent : String) (actual : Option String)
    → ((opt_str_eq (some tenant) actual && str_eq agent_id agent) ≡ true)
      ↔ ((actual ≡ some tenant) × (agent ≡ agent_id))
in_scope_lem tenant agent_id agent none = ground arith
in_scope_lem tenant agent_id agent (some t) = ground (arith, eq_iff tenant t, eq_iff agent_id agent)

-- The read-only template grants its agent in its tenant the actions `tool.http` and `tool.db-read` (the
-- first is that of every HTTP request, whatever its method), and grants nothing else, to nobody else.
pub readonly_lem :
    (tenant_id agent_id agent action : String) (context : Context)
    → ((evaluate
          (new (create_policy_template readonly tenant_id agent_id))
          agent
          action
          context).granted
        ≡ true)
      ↔ ((context.tenant_id ≡ some tenant_id)
          × (agent ≡ agent_id)
          × ((action ≡ "tool.http") ⊎ (action ≡ "tool.db-read")))
unfolding create_policy_template applies is_rule_enabled matches_scope
readonly_lem tenant_id agent_id agent action context =
    rw
      (
        evaluate_lem,
        exact_match "tool.http" action,
        exact_match "tool.db-read" action,
        exact_match "tool.db-write" action,
        exact_match "tool.send-email" action,
      )
      (let distinct = λ (a b : String). λ (n : str_eq a b ≡ false). distinct_texts a b action n in
        ground (
          arith,
          in_scope_lem tenant_id agent_id agent context.tenant_id,
          eq_iff "tool.http" action,
          eq_iff "tool.db-read" action,
          distinct "tool.http" "tool.db-write" refl,
          distinct "tool.http" "tool.send-email" refl,
          distinct "tool.db-read" "tool.db-write" refl,
          distinct "tool.db-read" "tool.send-email" refl,
        ))
