-- ===== src/Policy.antt =====
-- packages/agents-core/src/policy/engine.ts: rules that allow or deny an agent's actions, the
-- engine that evaluates them, the rule templates and the store of managed policies.
-- `undefined` and `null` are read alike by the code, and both are `none` here.
pub mod Pattern
pub mod Engine
pub mod Template
pub mod Store
mod Examples
use birthub_360_innovation.Base.{String, Bool, Option, List}

pub data Effect : Type 0 where
  allow deny : Effect

pub record Rule : Type 0 where
  pub id : String
  pub action : String
  pub effect : Effect
  pub enabled : Option Bool
  pub reason : Option String
  pub agent_id : Option String
  pub tenant_id : Option String

-- `reason` is the text of the rule, or one that the engine writes from the action and the rule's id.
pub data Reason : Type 0 where
  stated : String → Reason
  blocked_by allowed_by : String → String → Reason
  no_allow_rule : String → Reason

pub record Evaluation : Type 0 where
  pub granted : Bool
  pub reason : Reason
  pub matched_rule_id : Option String

pub record Context : Type 0 where
  pub tenant_id : Option String
