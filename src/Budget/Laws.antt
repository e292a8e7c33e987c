-- ===== src/Budget/Laws.antt =====
-- When `consumeBudget` throws.
use birthub_360_innovation.Base.{
  ℕ, ◌+◌, ◌≤◌, ◌<◌, false, ◌&&◌, not, List, ◌≡◌, refl, ◌⊎◌, inl, inr, arith, ltb, Bool-cases,
}
use birthub_360_innovation.Base.Result.{ok, err}
use birthub_360_innovation.Budget.{to_fixed, Mode, AgentBudget, BudgetEvent, Store}
use birthub_360_innovation.Budget.View.{BudgetRecord, to_budget_record}
use birthub_360_innovation.Budget.Consume.{
  consume_body, transaction, Env, Input, new_budget, upsert, charge, consume_budget, default_limit,
  is_warned, is_warn,
}

charge_answer :
    (env : Env) (input : Input) (row : AgentBudget) (next : ℕ) (rows : List AgentBudget)
    (events : List BudgetEvent)
    → (charge env input row next rows events).1
      ≡ to_budget_record (record row { consumed = next; updated_at = env.time })
unfolding charge
charge_answer env input row next rows events =
    elim (Bool-cases (is_warned next row.limit && not (is_warn row.last_alert_level))) [
      | inl t ↦ rw t
      | inr f ↦ rw f
    ]

consume_budget_charged :
    (env : Env) (input : Input) (s : Store)
    → let row =
        (upsert
          (new_budget env input.organization_id input.tenant_id input.agent_id default_limit)
          (λ r. r)
          s.budgets).1 in
      input.execution_mode ≡ Mode.live
      → ltb row.limit (to_fixed (row.consumed + input.cost)) ≡ false
      → (consume_budget env input s).1
        ≡ ok (
            to_budget_record (record row {
              consumed = to_fixed (row.consumed + input.cost);
              updated_at = env.time;
            }))
unfolding consume_budget consume_body transaction
consume_budget_charged env input s m room = rw (m, room, consume_body, transaction, charge_answer)

-- `consumeBudget` throws exactly on a live call where what the agent has consumed and the cost, added and
-- rounded to four digits, are above its limit, and then leaves no trace: the store is as it was, without
-- the event and the alert level of the block.
pub consume_budget_err :
    (env : Env) (input : Input) (s : Store)
    → let row =
        (upsert
          (new_budget env input.organization_id input.tenant_id input.agent_id default_limit)
          (λ r. r)
          s.budgets).1 in
      ((consume_budget env input s ≡ (
        s,
        err (record {
          agent_id = input.agent_id;
          consumed = row.consumed;
          limit = row.limit;
          tenant_id = input.tenant_id;
        }),
      ))
        × (input.execution_mode ≡ Mode.live)
        × (row.limit < to_fixed (row.consumed + input.cost)))
      ⊎ ((r : BudgetRecord) × ((consume_budget env input s).1 ≡ ok r)
          × ((input.execution_mode ≡ Mode.dry_run)
              ⊎ (to_fixed (row.consumed + input.cost) ≤ row.limit)))
unfolding consume_budget consume_body transaction
consume_budget_err env input s = go input.execution_mode refl
  where
    row : AgentBudget
    row =
        (upsert (new_budget env input.organization_id input.tenant_id input.agent_id default_limit)
          (λ r. r) s.budgets).1

    go :
        (m : Mode)
        → input.execution_mode ≡ m
        → ((consume_budget env input s ≡ (
          s,
          err (record {
            agent_id = input.agent_id;
            consumed = row.consumed;
            limit = row.limit;
            tenant_id = input.tenant_id;
          }),
        ))
            × (input.execution_mode ≡ Mode.live)
            × (row.limit < to_fixed (row.consumed + input.cost)))
          ⊎ ((r : BudgetRecord) × ((consume_budget env input s).1 ≡ ok r)
              × ((input.execution_mode ≡ Mode.dry_run)
                  ⊎ (to_fixed (row.consumed + input.cost) ≤ row.limit)))
    go Mode.dry_run m = inr (to_budget_record row, rw (m, consume_body, transaction), inl m)
    go Mode.live m = elim (Bool-cases (ltb row.limit (to_fixed (row.consumed + input.cost)))) [
      | inl over ↦ inl (rw (m, over, consume_body, transaction), m, ground arith)
      | inr room ↦ inr (
        to_budget_record
            (record row { consumed = to_fixed (row.consumed + input.cost); updated_at = env.time }),
        consume_budget_charged env input s m room,
        inr (ground arith),
      )
    ]
