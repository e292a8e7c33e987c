-- ===== src/Budget/View.antt =====
-- `toBudgetRecord`, `toBudgetUsageEvent`, `toBudgetAlert`, and what `getUsage` answers of the rows.
use birthub_360_innovation.Base.{
  ℕ, String, Bool, true, false, ◌&&◌, List, [], ◌∷◌, map, Option, none, some, leb, if◌then◌else◌,
  get_or, str_eq, take, filter, str_append,
}
use birthub_360_innovation.Budget.{to_fixed, Mode, Kind, Level, AgentBudget, BudgetEvent, Store}

pub record BudgetRecord : Type 0 where
  pub agent_id : String
  pub consumed : ℕ
  pub id : String
  pub limit : ℕ
  pub tenant_id : String
  pub updated_at : ℕ

unfoldable pub to_budget_record : AgentBudget → BudgetRecord
to_budget_record r = record {
  agent_id = r.agent_id;
  consumed = to_fixed r.consumed;
  id = r.id;
  limit = to_fixed r.limit;
  tenant_id = r.tenant_id;
  updated_at = r.updated_at;
}

pub record UsageEvent : Type 0 where
  pub agent_id : String
  pub cost : ℕ
  pub event_id : String
  pub execution_mode : Mode
  pub tenant_id : String
  pub timestamp : ℕ

abbrev pub effective_cost : Kind → ℕ → ℕ
effective_cost Kind.dry_run cost = 0
effective_cost Kind.warn_80 cost = 0
effective_cost Kind.block_100 cost = 0
effective_cost Kind.consume cost = cost
effective_cost Kind.other cost = cost

unfoldable pub to_budget_usage_event : BudgetEvent → UsageEvent
to_budget_usage_event e = record {
  agent_id = e.agent_id;
  cost = to_fixed (effective_cost e.kind e.cost);
  event_id = e.id;
  execution_mode = e.execution_mode;
  tenant_id = e.tenant_id;
  timestamp = e.created_at;
}

pub record Alert : Type 0 where
  pub agent_id : String
  pub level : Level
  pub message : String
  pub tenant_id : String
  pub timestamp : ℕ

abbrev alert : BudgetEvent → Level → String → Option Alert
alert e level fallback = some (record {
  agent_id = e.agent_id;
  level = level;
  message = get_or e.message (str_append fallback (str_append e.agent_id "."));
  tenant_id = e.tenant_id;
  timestamp = e.created_at;
})

unfoldable pub to_budget_alert : BudgetEvent → Option Alert
to_budget_alert e = elim e.kind [
  | Kind.warn_80 ↦ alert e Level.warn_80 "Budget warning for agent "
  | Kind.block_100 ↦ alert e Level.block_100 "Budget blocked for agent "
  | _ ↦ none
]

abbrev pub is_usage : Kind → Bool
is_usage Kind.consume = true
is_usage Kind.dry_run = true
is_usage _ = false

unfoldable pub filter_map {ℓ κ} : {A : Type ℓ} {B : Type κ} → (A → Option B) → List A → List B
filter_map f [] = []
filter_map f (x ∷ xs) = let rest = filter_map f xs in elim (f x) [ none ↦ rest | some y ↦ y ∷ rest ]

-- The newest first, rows of one time in the order of their creation.
unfoldable pub insert_desc {ℓ} : {A : Type ℓ} → (A → ℕ) → A → List A → List A
insert_desc time x [] = x ∷ []
insert_desc time x (y ∷ ys) =
    if leb (time y) (time x) then x ∷ y ∷ ys else y ∷ insert_desc time x ys

unfoldable pub sort_desc {ℓ} : {A : Type ℓ} → (A → ℕ) → List A → List A
sort_desc time [] = []
sort_desc time (x ∷ xs) = insert_desc time x (sort_desc time xs)

pub record Usage : Type 0 where
  pub alerts : List Alert
  pub records : List BudgetRecord
  pub usage_events : List UsageEvent

unfoldable pub get_usage : String → String → Store → Usage
get_usage organization_id tenant_id s =
    let events = take 250 (
      sort_desc (λ e. e.created_at)
        (filter (λ e. str_eq e.organization_id organization_id && str_eq e.tenant_id tenant_id)
          s.events)) in
    record {
      alerts = filter_map to_budget_alert events;
      records = map to_budget_record (
          sort_desc (λ r. r.updated_at)
            (filter (λ r. str_eq r.organization_id organization_id && str_eq r.tenant_id tenant_id)
              s.budgets));
      usage_events = map to_budget_usage_event (filter (λ e. is_usage e.kind) events);
    }
