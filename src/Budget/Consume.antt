-- ===== src/Budget/Consume.antt =====
-- `setLimit`, `getRecord` and `consumeBudget`.
use birthub_360_innovation.Base.{
  ℕ, ◌+◌, ◌*◌, String, Bool, true, false, ◌&&◌, not, List, [], ◌∷◌, ◌++◌, Option, none, some, ltb,
  leb, ◌==◌, if◌then◌else◌, str_eq,
}
use birthub_360_innovation.Base.Result.{Result, ok, err}
use birthub_360_innovation.Budget.{
  to_fixed, Mode, Kind, Level, AgentBudget, BudgetEvent, Store, BudgetExceeded,
}
use birthub_360_innovation.Budget.View.{BudgetRecord, to_budget_record}

pub record Input : Type 0 where
  pub actor_id : String
  pub agent_id : String
  pub cost : ℕ
  pub execution_mode : Mode
  pub organization_id : String
  pub request_id : Option String
  pub tenant_id : String

-- 100 BRL, the default of the column and the constant of the file.
abbrev pub default_limit : ℕ
default_limit = 10000000000

-- What a call takes from the database and for the logged texts: the ids of new rows, the time, and the
-- message for a ratio of use.
pub record Env : Type 0 where
  pub budget_id : String
  pub event_id : ℕ → String
  pub time : ℕ
  pub message : Level → ℕ → ℕ → String

abbrev pub is_row : String → String → AgentBudget → Bool
is_row tenant_id agent_id r = str_eq r.tenant_id tenant_id && str_eq r.agent_id agent_id

unfoldable pub new_budget : Env → String → String → String → ℕ → AgentBudget
new_budget env organization_id tenant_id agent_id limit = record {
  id = env.budget_id;
  tenant_id = tenant_id;
  organization_id = organization_id;
  agent_id = agent_id;
  limit = limit;
  consumed = 0;
  last_alert_level = none;
  updated_at = env.time;
}

-- `upsert` on the unique pair of tenant and agent, with a change of the row that is there.
unfoldable pub upsert :
    AgentBudget → (AgentBudget → AgentBudget) → List AgentBudget → List AgentBudget × AgentBudget
upsert new change [] = (new ∷ [], new)
upsert new change (r ∷ rs) =
    let rest = upsert new change rs in
    if is_row new.tenant_id new.agent_id r then (change r ∷ rs, change r) else (r ∷ rest.0, rest.1)

unfoldable pub set_limit : Env → String → String → String → ℕ → Store → Store × BudgetRecord
set_limit env organization_id tenant_id agent_id limit s =
    let written =
      upsert (new_budget env organization_id tenant_id agent_id limit)
        (λ r. record r { limit = limit; updated_at = env.time }) s.budgets in
    (record s { budgets = written.0 }, to_budget_record written.1)

-- `upsertBudgetRecord`, with nothing to change. `@updatedAt` is left as it is.
unfoldable pub get_record : Env → String → String → String → Store → Store × BudgetRecord
get_record env organization_id tenant_id agent_id s =
    let written =
      upsert (new_budget env organization_id tenant_id agent_id default_limit) (λ r. r) s.budgets in
    (record s { budgets = written.0 }, to_budget_record written.1)

unfoldable pub new_event : Env → ℕ → Input → ℕ → Kind → Option String → BudgetEvent
new_event env n input cost kind message = record {
  id = env.event_id n;
  actor_id = input.actor_id;
  agent_id = input.agent_id;
  cost = cost;
  execution_mode = input.execution_mode;
  kind = kind;
  message = message;
  organization_id = input.organization_id;
  request_id = input.request_id;
  tenant_id = input.tenant_id;
  created_at = env.time;
}

-- `ratio >= 0.8` and `ratio >= 1` for the ratio of use, which is 1 if the limit is 0.
abbrev pub is_warned : ℕ → ℕ → Bool
is_warned consumed limit = if limit == 0 then true else leb (4 * limit) (5 * consumed)

abbrev pub is_full : ℕ → ℕ → Bool
is_full consumed limit = if limit == 0 then true else leb limit consumed

abbrev pub is_warn : Option Level → Bool
is_warn none = false
is_warn (some Level.warn_80) = true
is_warn (some Level.block_100) = false

abbrev pub kind_of : Level → Kind
kind_of Level.warn_80 = Kind.warn_80
kind_of Level.block_100 = Kind.block_100

abbrev pub put_row : AgentBudget → (AgentBudget → AgentBudget) → List AgentBudget → List AgentBudget
put_row new change rows = (upsert new change rows).0

-- The part of `consumeBudget` behind the check of the limit: the row is written, the event logged, and an
-- alert raised if the use is high.
unfoldable pub charge :
    Env → Input → AgentBudget → ℕ → List AgentBudget → List BudgetEvent → Store × BudgetRecord
charge env input row next rows events =
    let updated = record row { consumed = next; updated_at = env.time } in
    let level = if is_full next row.limit then Level.block_100 else Level.warn_80 in
    let logged = events ++ new_event env 0 input input.cost Kind.consume none ∷ [] in
    let message = some (env.message level next row.limit) in
    if is_warned next row.limit && not (is_warn row.last_alert_level)
    then (
      record {
        budgets =
            put_row updated
              (λ r. record r {
                consumed = next;
                last_alert_level = some level;
                updated_at = env.time;
              })
              rows;
        events = logged ++ new_event env 1 input 0 (kind_of level) message ∷ [];
      },
      to_budget_record updated,
    )
    else (
      record {
        budgets = put_row updated (λ r. record r { consumed = next; updated_at = env.time }) rows;
        events = logged;
      },
      to_budget_record updated,
    )

-- The writes before `BudgetExceededError` is thrown.
unfoldable pub block : Env → Input → AgentBudget → ℕ → List AgentBudget → List BudgetEvent → Store
block env input row next rows events = record {
  budgets =
      put_row row (λ r. record r { last_alert_level = some Level.block_100; updated_at = env.time })
        rows;
  events =
      events
      ++ new_event env 0 input input.cost Kind.block_100
          (some (env.message Level.block_100 next row.limit))
        ∷ [];
}

-- The body of the transaction: what it has written, and its answer or the error that it throws.
unfoldable pub consume_body : Env → Input → Store → Store × Result BudgetExceeded BudgetRecord
consume_body env input s =
    let found =
      upsert (new_budget env input.organization_id input.tenant_id input.agent_id default_limit)
        (λ r. r) s.budgets in
    let row = found.1 in
    let next = to_fixed (row.consumed + input.cost) in
    let charged = charge env input row next found.0 s.events in
    elim input.execution_mode [
      | Mode.dry_run ↦ (
        record {
          budgets = found.0;
          events = s.events ++ new_event env 0 input 0 Kind.dry_run none ∷ [];
        },
        ok (to_budget_record row),
      )
      | Mode.live ↦
          if ltb row.limit next
          then (
            block env input row next found.0 s.events,
            err (record {
              agent_id = input.agent_id;
              consumed = row.consumed;
              limit = row.limit;
              tenant_id = input.tenant_id;
            }),
          )
          else (charged.0, ok charged.1)
    ]

-- `prisma.$transaction`: an error rolls back all that the body wrote.
unfoldable pub transaction :
    Store → Store × Result BudgetExceeded BudgetRecord → Store × Result BudgetExceeded BudgetRecord
transaction s (s', ok r) = (s', ok r)
transaction s (s', err e) = (s, err e)

unfoldable pub consume_budget : Env → Input → Store → Store × Result BudgetExceeded BudgetRecord
consume_budget env input s = transaction s (consume_body env input s)
