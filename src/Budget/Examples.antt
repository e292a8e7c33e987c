-- ===== src/Budget/Examples.antt =====
-- A live call whose cost is more than the agent has left, and the first call of an agent.
use birthub_360_innovation.Base.{◌+◌, ◌≤◌, ◌<◌, ◌⊎◌, [], ◌∷◌, none, ◌≡◌, decimal, str_append}
use birthub_360_innovation.Base.Result.{ok, err}
use birthub_360_innovation.Budget.{to_fixed, Mode, AgentBudget, Store}
use birthub_360_innovation.Budget.View.{BudgetRecord}
use birthub_360_innovation.Budget.Consume.{Env, Input, new_budget, upsert, consume_budget}
use birthub_360_innovation.Budget.Laws.{consume_budget_err}
use birthub_360_innovation.Budget.Balance.{IsBalanced, consume_budget-IsBalanced}
use birthub_360_innovation.Base.{refl}

abbrev env : Env
env = record {
  budget_id = "b1";
  event_id = λ n. str_append "e" (decimal n);
  time = 1000;
  message = λ l a b. "use of the budget";
}

abbrev input : Input
input = record {
  actor_id = "user";
  agent_id = "a";
  cost = 30000;
  execution_mode = Mode.live;
  organization_id = "o";
  request_id = none;
  tenant_id = "t";
}

abbrev budget : AgentBudget
budget = record {
  id = "b0";
  tenant_id = "t";
  organization_id = "o";
  agent_id = "a";
  limit = 100000;
  consumed = 90000;
  last_alert_level = none;
  updated_at = 0;
}

abbrev store : Store
store = record { budgets = budget ∷ []; events = [] }

consume_budget_err_example :
    ((consume_budget env input store ≡ (
      store,
      err (record { agent_id = "a"; consumed = 90000; limit = 100000; tenant_id = "t" }),
    ))
      × (input.execution_mode ≡ Mode.live)
      × (100000 < to_fixed (90000 + 30000)))
    ⊎ ((r : BudgetRecord) × ((consume_budget env input store).1 ≡ ok r)
        × ((input.execution_mode ≡ Mode.dry_run) ⊎ (to_fixed (90000 + 30000) ≤ 100000)))
unfolding upsert new_budget
consume_budget_err_example = consume_budget_err env input store

abbrev empty : Store
empty = record { budgets = []; events = [] }

consume_budget-IsBalanced_example : IsBalanced (consume_budget env input empty).0
consume_budget-IsBalanced_example = consume_budget-IsBalanced env input empty (λ t a. refl)
