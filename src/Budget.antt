-- ===== src/Budget.antt =====
-- apps/api/src/modules/budget/budget.service.ts and budget.types.ts: the budgets of agents and the
-- events that are logged of them. Amounts are whole hundred-millionths of a real, so that what the
-- code rounds to four digits (`toFixed(4)`) can have eight. A table is the list of its rows in the order of their creation; the
-- transaction of `consumeBudget` is one step, which a thrown error rolls back.
pub mod View
pub mod Consume
pub mod Laws
pub mod Spent
pub mod Balance
mod Examples
use birthub_360_innovation.Base.{ℕ, ◌+◌, ◌*◌, ◌/◌, String, List, Option}

-- `Number(x.toFixed(4))`: the nearest whole ten-thousandth, the greater of two.
unfoldable pub to_fixed : ℕ → ℕ
to_fixed n = (n + 5000) / 10000 * 10000

pub data Mode : Type 0 where
  dry_run live : Mode

pub data Level : Type 0 where
  warn_80 block_100 : Level

-- The kinds of events; `other` is any other text.
pub data Kind : Type 0 where
  dry_run consume warn_80 block_100 other : Kind

pub record AgentBudget : Type 0 where
  pub id : String
  pub tenant_id : String
  pub organization_id : String
  pub agent_id : String
  pub limit : ℕ
  pub consumed : ℕ
  pub last_alert_level : Option Level
  pub updated_at : ℕ

-- `message` is the text in the metadata, if there is one.
pub record BudgetEvent : Type 0 where
  pub id : String
  pub actor_id : String
  pub agent_id : String
  pub cost : ℕ
  pub execution_mode : Mode
  pub kind : Kind
  pub message : Option String
  pub organization_id : String
  pub request_id : Option String
  pub tenant_id : String
  pub created_at : ℕ

pub record Store : Type 0 where
  pub budgets : List AgentBudget
  pub events : List BudgetEvent

-- The error `BudgetExceededError`.
pub record BudgetExceeded : Type 0 where
  pub agent_id : String
  pub consumed : ℕ
  pub limit : ℕ
  pub tenant_id : String
