-- ===== src/Budget/Balance.antt =====
-- The budgets and the events agree on what is spent.
use birthub_360_innovation.Base.{
  ℕ, ◌+◌, String, false, ◌&&◌, not, List, [], ◌∷◌, ◌++◌, none, some, ◌≡◌, refl, sym, ap, ◌∙◌, subst,
  inl, inr, arith, ltb, if◌then◌else◌, Bool-cases, str_eq, eq_iff,
}
use birthub_360_innovation.Base.Result.{ok}
use birthub_360_innovation.Budget.{to_fixed, Mode, Kind, Level, AgentBudget, BudgetEvent, Store}
use birthub_360_innovation.Budget.View.{BudgetRecord, to_budget_record}
use birthub_360_innovation.Budget.Consume.{
  consume_body, transaction, Env, Input, is_row, new_budget, new_event, upsert, charge,
  consume_budget, default_limit, is_warned, is_warn, is_full,
}
use birthub_360_innovation.Budget.Spent.{
  spent, replay, Keeps, replay-append, spent-upsert, consumed-upsert, consumed-found, spent-found,
  names-found,
}

-- Every agent has spent what the events say, in their order.
abbrev pub IsBalanced : Store → Type 0
IsBalanced s = (t a : String) → spent t a s.budgets ≡ replay t a s.events 0

spent-charge :
    (env : Env) (input : Input) (row : AgentBudget) (next : ℕ) (rows : List AgentBudget)
    (events : List BudgetEvent) (t a : String)
    → spent t a (charge env input row next rows events).0.budgets
      ≡ (if is_row t a row then next else spent t a rows)
unfolding charge
spent-charge env input row next rows events t a =
    elim (Bool-cases (is_warned next row.limit && not (is_warn row.last_alert_level))) [
      | inl high ↦ rw high (
          written
            (λ r. record r {
              consumed = next;
              last_alert_level =
                  some (if is_full next row.limit then Level.block_100 else Level.warn_80);
              updated_at = env.time;
            })
            (λ r. (refl, refl)) (λ r. refl))
      | inr low ↦ rw low (
          written (λ r. record r { consumed = next; updated_at = env.time }) (λ r. (refl, refl))
            (λ r. refl))
    ]
  where
    updated : AgentBudget
    updated = record row { consumed = next; updated_at = env.time }

    written :
        (change : AgentBudget → AgentBudget)
        → Keeps change
        → ((r : AgentBudget) → (change r).consumed ≡ next)
        → spent t a (upsert updated change rows).0
          ≡ (if is_row t a row then next else spent t a rows)
    written change k c =
        spent-upsert updated change rows k t a
        ∙ ap (λ n. if is_row t a row then n else spent t a rows)
            (consumed-upsert updated change rows k next refl c)

replay-charge :
    (env : Env) (input : Input) (row : AgentBudget) (next : ℕ) (rows : List AgentBudget)
    (events : List BudgetEvent) (t a : String)
    → replay t a (charge env input row next rows events).0.events 0 ≡ (
        if str_eq input.tenant_id t && str_eq input.agent_id a
        then to_fixed (replay t a events 0 + input.cost)
        else replay t a events 0)
unfolding charge new_event
replay-charge env input row next rows events t a =
    elim (Bool-cases (is_warned next row.limit && not (is_warn row.last_alert_level))) [
      | inl high ↦ elim (Bool-cases (is_full next row.limit)) [
        | inl full ↦ rw (high, full, replay-append, replay-append) (ground arith)
        | inr room ↦ rw (high, room, replay-append, replay-append) (ground arith)
      ]
      | inr low ↦ rw (low, replay-append) (ground arith)
    ]

replay-dry_run :
    (env : Env) (input : Input) (events : List BudgetEvent) (t a : String)
    → replay t a (events ++ new_event env 0 input 0 Kind.dry_run none ∷ []) 0 ≡ replay t a events 0
unfolding new_event
replay-dry_run env input events t a =
    rw (replay-append t a events (new_event env 0 input 0 Kind.dry_run none ∷ [])) (ground arith)

-- If every agent has spent what its `CONSUME` events say, their costs added one by one and each sum rounded
-- to four digits, then so it is after `consumeBudget`, whatever it does.
pub consume_budget-IsBalanced :
    (env : Env) (input : Input) (s : Store)
    → IsBalanced s
    → IsBalanced (consume_budget env input s).0
unfolding consume_budget consume_body transaction new_budget
consume_budget-IsBalanced env input s h t a = go input.execution_mode refl
  where
    new : AgentBudget
    new = new_budget env input.organization_id input.tenant_id input.agent_id default_limit

    found : List AgentBudget × AgentBudget
    found = upsert new (λ r. r) s.budgets

    next : ℕ
    next = to_fixed (found.1.consumed + input.cost)

    Goal : Type 0
    Goal =
        spent t a (consume_budget env input s).0.budgets
        ≡ replay t a (consume_budget env input s).0.events 0

    named : is_row t a found.1 ≡ is_row t a new
    named = λ i. is_row t a (record new {
      tenant_id = (names-found new s.budgets).0 i;
      agent_id = (names-found new s.budgets).1 i;
    })

    charged : (if is_row t a found.1 then next else spent t a found.0) ≡ (
        if str_eq input.tenant_id t && str_eq input.agent_id a
        then to_fixed (replay t a s.events 0 + input.cost)
        else replay t a s.events 0)
    charged = elim (Bool-cases (is_row t a new)) [
      | inl same ↦
          let p : input.tenant_id ≡ t = (eq_iff input.tenant_id t).0 (ground (arith, same)) in
          let q : input.agent_id ≡ a = (eq_iff input.agent_id a).0 (ground (arith, same)) in
          let before : found.1.consumed ≡ replay t a s.events 0 =
            consumed-found new s.budgets refl ∙ (λ i. spent (p i) (q i) s.budgets) ∙ h t a in
          rw (named, same) (ap (λ n. to_fixed (n + input.cost)) before)
      | inr other ↦ rw (named, other) (ground (arith, spent-found new s.budgets t a refl, h t a))
    ]

    note : BudgetEvent
    note = new_event env 0 input 0 Kind.dry_run none

    left : Store
    left = record { budgets = found.0; events = s.events ++ note ∷ [] }

    tried : spent t a left.budgets ≡ replay t a left.events 0
    tried = spent-found new s.budgets t a refl ∙ h t a ∙ sym (replay-dry_run env input s.events t a)

    dried :
        input.execution_mode ≡ Mode.dry_run
        → consume_budget env input s ≡ (left, ok (to_budget_record found.1))
    dried m = ap (transaction s) body
      where
        body : consume_body env input s ≡ (left, ok (to_budget_record found.1))
        body = simp (m, consume_body)

    charge_it : Store × BudgetRecord
    charge_it = charge env input found.1 next found.0 s.events

    charged_left :
        input.execution_mode ≡ Mode.live
        → ltb found.1.limit next ≡ false
        → consume_budget env input s ≡ (charge_it.0, ok charge_it.1)
    charged_left m room = ap (transaction s) body
      where
        body : consume_body env input s ≡ (charge_it.0, ok charge_it.1)
        body = simp (m, room, consume_body)

    go : (m : Mode) → input.execution_mode ≡ m → Goal
    go Mode.dry_run m =
        subst (λ z. spent t a z.0.budgets ≡ replay t a z.0.events 0) (sym (dried m)) tried
    go Mode.live m = elim (Bool-cases (ltb found.1.limit next)) [
      | inl over ↦ rw (m, over, consume_body, transaction) (h t a)
      | inr room ↦
          subst (λ z. spent t a z.0.budgets ≡ replay t a z.0.events 0) (sym (charged_left m room))
            (spent-charge env input found.1 next found.0 s.events t a
              ∙ charged
              ∙ sym (replay-charge env input found.1 next found.0 s.events t a))
    ]
