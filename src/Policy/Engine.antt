-- ===== src/Policy/Engine.antt =====
-- `PolicyEngine`: the rules in the order in which they were added, and `evaluate`.
use birthub_360_innovation.Base.{
  String, Bool, true, false, ◌&&◌, ◌||◌, not, List, [], ◌∷◌, ◌++◌, if◌then◌else◌, ◌≡◌, refl, arith,
  get_or, Option, none, some, filter, find, any, opt_str_eq, is_some,
}
use birthub_360_innovation.Policy.{
  allow, deny, Rule, stated, blocked_by, allowed_by, no_allow_rule, Evaluation, Context,
}
use birthub_360_innovation.Policy.Pattern.{matches_action}

pub record Engine : Type 0 where
  pub rules : List Rule

-- The constructor.
abbrev pub new : List Rule → Engine
new initial = record { rules = initial }

unfoldable pub set_rules : List Rule → Engine → Engine
set_rules rules e = record { rules = rules }

abbrev pub get_rules : Engine → List Rule
get_rules e = e.rules

unfoldable pub add_rule : Rule → Engine → Engine
add_rule rule e = record { rules = e.rules ++ rule ∷ [] }

unfoldable pub is_rule_enabled : Rule → Bool
is_rule_enabled rule = get_or rule.enabled true

-- A rule with no tenant or no agent is for all of them.
abbrev pub admits : Option String → Option String → Bool
admits none actual = true
admits (some wanted) actual = opt_str_eq (some wanted) actual

unfoldable pub matches_scope : Rule → String → Context → Bool
matches_scope rule agent_id context =
    admits rule.tenant_id context.tenant_id && admits rule.agent_id (some agent_id)

-- The test of the `filter` in `evaluate`.
unfoldable pub applies : String → String → Context → Rule → Bool
applies agent_id action context rule =
    is_rule_enabled rule && matches_scope rule agent_id context && matches_action rule.action action

abbrev pub is_deny : Rule → Bool
is_deny rule = elim rule.effect [ allow ↦ false | deny ↦ true ]

abbrev pub is_allow : Rule → Bool
is_allow rule = elim rule.effect [ allow ↦ true | deny ↦ false ]

-- What follows the two searches.
abbrev pub decide : String → Option Rule → Option Rule → Evaluation
decide action (some rule) other = record {
  granted = false;
  reason = elim rule.reason [ none ↦ blocked_by action rule.id | some text ↦ stated text ];
  matched_rule_id = some rule.id;
}
decide action none (some rule) = record {
  granted = true;
  reason = elim rule.reason [ none ↦ allowed_by action rule.id | some text ↦ stated text ];
  matched_rule_id = some rule.id;
}
decide action none none = record {
  granted = false;
  reason = no_allow_rule action;
  matched_rule_id = none;
}

unfoldable pub evaluate : Engine → String → String → Context → Evaluation
evaluate e agent_id action context =
    let matching = filter (applies agent_id action context) e.rules in
    decide action (find is_deny matching) (find is_allow matching)

-- Some rule of the list has the effect and applies.
abbrev pub denies : String → String → Context → Rule → Bool
denies agent_id action context r = is_deny r && applies agent_id action context r

abbrev pub allows : String → String → Context → Rule → Bool
allows agent_id action context r = is_allow r && applies agent_id action context r

module _ (p q : Rule → Bool) where
  is_some-find-filter : (rs : List Rule) → is_some (find q (filter p rs)) ≡ any (λ r. q r && p r) rs
  is_some-find-filter [] = refl
  is_some-find-filter (r ∷ rs) = ground (arith, is_some-find-filter rs)

  any-append : (rs ts : List Rule) → any p (rs ++ ts) ≡ (any p rs || any p ts)
  any-append [] ts = refl
  any-append (r ∷ rs) ts = ground (arith, any-append rs ts)

granted-decide :
    (action : String) (d a : Option Rule)
    → (decide action d a).granted ≡ (not (is_some d) && is_some a)
granted-decide action none none = refl
granted-decide action none (some a) = refl
granted-decide action (some d) a = refl

-- An action is granted exactly when some enabled rule in scope that matches it allows it, and none
-- denies it, wherever the rules stand in the list.
pub evaluate_lem :
    (e : Engine) (agent_id action : String) (context : Context)
    → (evaluate e agent_id action context).granted ≡ (
        not (any (denies agent_id action context) e.rules)
        && any (allows agent_id action context) e.rules)
unfolding evaluate
evaluate_lem e agent_id action context =
    let p = applies agent_id action context in
    rw (
      granted-decide,
      is_some-find-filter p is_deny e.rules,
      is_some-find-filter p is_allow e.rules,
    )

-- After a rule that denies is added, an action to which it applies is not granted; any other action is
-- granted exactly when it was before.
pub evaluate-add_rule_deny :
    (e : Engine) (rule : Rule) (agent_id action : String) (context : Context)
    → rule.effect ≡ deny
    → (evaluate (add_rule rule e) agent_id action context).granted
      ≡ (not (applies agent_id action context rule) && (evaluate e agent_id action context).granted)
unfolding add_rule
evaluate-add_rule_deny e rule agent_id action context h =
    let d = denies agent_id action context in
    let a = allows agent_id action context in
    rw (evaluate_lem, evaluate_lem, any-append d d, any-append a a) (ground arith)

find-filter :
    (p q : Rule → Bool) (rs : List Rule) → find q (filter p rs) ≡ find (λ r. q r && p r) rs
find-filter p q [] = refl
find-filter p q (r ∷ rs) = ground (arith, find-filter p q rs)

abbrev pub rule_id : Option Rule → Option String
rule_id none = none
rule_id (some r) = some r.id

matched-decide :
    (action : String) (d a : Option Rule)
    → (decide action d a).matched_rule_id ≡ (if is_some d then rule_id d else rule_id a)
matched-decide action none none = refl
matched-decide action none (some a) = refl
matched-decide action (some d) a = refl

-- The reported rule is the first in the list that denies, if there is one, else the first that
-- allows, and none if there is neither.
pub matched_rule_id-evaluate :
    (e : Engine) (agent_id action : String) (context : Context)
    → let d = find (denies agent_id action context) e.rules in
      (evaluate e agent_id action context).matched_rule_id
      ≡ (if is_some d then rule_id d else rule_id (find (allows agent_id action context) e.rules))
unfolding evaluate
matched_rule_id-evaluate e agent_id action context =
    let p = applies agent_id action context in
    rw (matched-decide, find-filter p is_deny e.rules, find-filter p is_allow e.rules)
