-- ===== src/Workflows/Service.antt =====
-- The operations of the service. Each answers the store and what it returns or throws; what runs in a
-- transaction leaves no trace where it throws; the schedule comes after the transaction.
use birthub_360_innovation.Base.{
  ℕ, ◌*◌, ◌^◌, String, Bool, true, false, ◌&&◌, ◌||◌, not, List, [], ◌∷◌, ◌++◌, map, Option, none,
  some, leb, ltb, if◌then◌else◌, is_some, str_eq, length, find, any, filter, take, decimal,
}
use birthub_360_innovation.Base.Int.{pos, negsuc, Number, infinity, minus_infinity, finite, int}
use birthub_360_innovation.Base.Json.{Value, member, num, obj, end}
use birthub_360_innovation.Base.Result.{Result, ok, err, ◌>>=◌, ◌>>◌, throw_if}
use birthub_360_innovation.Auth.{Organization}
use birthub_360_innovation.Runner.{
  WorkflowStep, Transition, WorkflowStatus, TriggerType, Execution, StepResult,
}
use birthub_360_innovation.Runner.Trigger.{is_published}
use birthub_360_innovation.Runner.Output.{◌&◌}
use birthub_360_innovation.Workflows.{
  Store, Row, CreateInput, Host, Draw, ServiceError, organization_not_found, no_first_step,
  duplicate_name, workflow_create_failed, payment_required, invalid_cron,
}
use birthub_360_innovation.Workflows.Canvas.{
  ensure_canvas_is_dag, get_trigger_step_key, persist_canvas,
}

abbrev pub or_throw : {A : Type 0} → ServiceError → Option A → Result ServiceError A
or_throw e none = err e
or_throw e (some a) = ok a

unfoldable pub resolve_scoped_identity : String → Store → Result ServiceError Organization
resolve_scoped_identity reference s = or_throw organization_not_found (
    find (λ (o : Organization). str_eq o.id reference || str_eq o.tenant_id reference)
      s.organizations)

-- `readNumericPlanLimit` of apps/api/src/modules/billing/plan.utils.ts.
abbrev pub plan_limit : Value → ℕ → Number
plan_limit (num (finite (negsuc n) k)) fallback = infinity
plan_limit (num minus_infinity) fallback = infinity
plan_limit (num n) fallback = n
plan_limit _ fallback = int fallback

unfoldable pub read_numeric_plan_limit : Value → String → ℕ → Number
read_numeric_plan_limit limits key fallback = plan_limit (member key limits) fallback

-- `Number.isFinite(limit) && current >= limit`
abbrev pub is_reached : ℕ → Number → Bool
is_reached current (finite (pos m) k) = leb m (current * 2 ^ k)
is_reached current (finite (negsuc m) k) = true
is_reached current _ = false

unfoldable pub assert_workflow_limit : Host → Organization → Store → Result ServiceError (Unit {0})
assert_workflow_limit host identity s =
    let limit = read_numeric_plan_limit (host.plan_limits identity.tenant_id) "workflows" 30 in
    let current = length (
      filter
        (λ (r : Row). not (is_some r.archived_at) && str_eq r.workflow.tenant_id identity.tenant_id)
        s.rows) in
    throw_if (is_reached current limit) payment_required

unfoldable pub create_webhook_secret : Host → Draw → Organization → String → String
create_webhook_secret host draw identity name =
    host.sha256 (identity.tenant_id & ":" & name & ":" & decimal draw.time & ":" & draw.uuid)

abbrev pub is_cron : TriggerType → Bool
is_cron TriggerType.cron = true
is_cron _ = false

abbrev pub is_webhook : TriggerType → Bool
is_webhook TriggerType.webhook = true
is_webhook _ = false

abbrev pub is_archived : WorkflowStatus → Bool
is_archived WorkflowStatus.archived = true
is_archived _ = false

-- `upsertCronTrigger`: no schedule where there is no expression, or an empty one.
unfoldable pub upsert_cron_trigger : Host → Row → Store → Result ServiceError Store
upsert_cron_trigger host row s = elim row.cron_expression [
  | none ↦ ok s
  | some cron ↦
      let scheduled : Store = record s {
        crons =
            s.crons
            ++ record {
              cron = cron;
              payload = record {
                organization_id = row.organization_id;
                tenant_id = row.workflow.tenant_id;
                trigger_payload = obj end;
                trigger_type = TriggerType.cron;
                workflow_id = row.workflow.id;
              };
            }
              ∷ [];
      } in
      if str_eq cron ""
      then ok s
      else if host.accepts_cron cron
      then ok scheduled
      else err invalid_cron
]

-- The schedule of a workflow that has just been saved, if it has one.
unfoldable pub schedule : Host → TriggerType → Row → Store → Result ServiceError Store
schedule host trigger_type row s =
    if is_cron trigger_type then upsert_cron_trigger host row s else ok s

-- A workflow as it is shown, with its latest executions and their results.
pub record PersistedWorkflow : Type 0 where
  pub row : Row
  pub executions : List (Execution × List StepResult)

unfoldable pub insert_latest : Execution → List Execution → List Execution
insert_latest e [] = e ∷ []
insert_latest e (x ∷ xs) =
    if ltb x.started_at e.started_at then e ∷ x ∷ xs else x ∷ insert_latest e xs

unfoldable pub latest_first : List Execution → List Execution
latest_first [] = []
latest_first (e ∷ es) = insert_latest e (latest_first es)

abbrev pub is_row : String → String → Row → Bool
is_row workflow_id tenant_id r =
    str_eq r.workflow.id workflow_id && str_eq r.workflow.tenant_id tenant_id

unfoldable pub get_workflow_by_id : String → String → Store → Option PersistedWorkflow
get_workflow_by_id workflow_id tenant_id s = elim (find (is_row workflow_id tenant_id) s.rows) [
  | none ↦ none
  | some row ↦ some (record {
    row = row;
    executions =
        map (λ e. (e, filter (λ (r : StepResult). str_eq r.execution_id e.id) s.results))
          (take 25 (
            latest_first
              (filter (λ (e : Execution). str_eq e.workflow_id workflow_id) s.executions)));
  })
]

-- Each workflow of the tenant with the number of its executions and of its steps, the latest first.
unfoldable pub list_workflows : String → Store → List (Row × ℕ × ℕ)
list_workflows tenant_id s = go s.rows []
  where
    go : List Row → List (Row × ℕ × ℕ) → List (Row × ℕ × ℕ)
    go [] shown = shown
    go (r ∷ rs) shown = go rs (
        if str_eq r.workflow.tenant_id tenant_id
        then (
          r,
          length (filter (λ (e : Execution). str_eq e.workflow_id r.workflow.id) s.executions),
          length r.workflow.steps,
        )
          ∷ shown
        else shown)

unfoldable pub new_row :
    Host → Draw → Organization → CreateInput → List WorkflowStep → List Transition → Row
new_row host draw identity input steps transitions = record {
  workflow = record {
    id = draw.row_id;
    tenant_id = identity.tenant_id;
    status = input.status;
    max_depth = input.max_depth;
    steps = steps;
    transitions = transitions;
  };
  organization_id = identity.id;
  name = input.name;
  description = input.description;
  definition = input.canvas;
  trigger_type = input.trigger_type;
  trigger_config = input.trigger_config;
  webhook_secret =
      if is_webhook input.trigger_type
      then some (create_webhook_secret host draw identity input.name)
      else none;
  cron_expression = input.cron_expression;
  event_topic = input.event_topic;
  published_at = if is_published input.status then some draw.time else none;
  archived_at = if is_archived input.status then some draw.time else none;
}

-- Another workflow of the tenant has the name.
abbrev pub is_named : String → String → String → Row → Bool
is_named id tenant_id name r =
    not (str_eq r.workflow.id id) && str_eq r.workflow.tenant_id tenant_id && str_eq r.name name

-- What `createWorkflow` checks before it makes the steps.
unfoldable pub accept_input :
    Host → Draw → String → CreateInput → Store → Result ServiceError Organization
accept_input host draw tenant_reference input s = do
  identity ← resolve_scoped_identity tenant_reference s
  assert_workflow_limit host identity s
  valid ← ensure_canvas_is_dag input.canvas
  throw_if (is_published input.status && not (is_some (get_trigger_step_key input.canvas)))
      no_first_step
  throw_if (any (is_named draw.row_id identity.tenant_id input.name) s.rows) duplicate_name
  ok identity

unfoldable pub created_row : Host → Draw → String → CreateInput → Store → Result ServiceError Row
created_row host draw tenant_reference input s = do
  identity ← accept_input host draw tenant_reference input s
  made ← persist_canvas draw.step_id input.canvas
  ok (new_row host draw identity input made.0 made.1)

unfoldable pub create_workflow :
    Host → Draw → String → CreateInput → Store → Store × Result ServiceError PersistedWorkflow
create_workflow host draw tenant_reference input s =
    elim (created_row host draw tenant_reference input s) [
      | err e ↦ (s, err e)
      | ok row ↦
          let saved = record s { rows = s.rows ++ row ∷ [] } in
          elim (schedule host input.trigger_type row saved) [
            | err e ↦ (saved, err e)
            | ok left ↦ (
              left,
              or_throw workflow_create_failed
                  (get_workflow_by_id row.workflow.id row.workflow.tenant_id left),
            )
          ]
    ]
