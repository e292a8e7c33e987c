-- ===== src/Workflows/Update.antt =====
-- `updateWorkflow`, `archiveWorkflow` and `runWorkflowNow`.
use birthub_360_innovation.Base.{
  ℕ, String, not, List, [], ◌∷◌, ◌++◌, Option, none, some, if◌then◌else◌, get_or, str_eq, find, any,
  filter, update_where,
}
use birthub_360_innovation.Base.Json.{Value}
use birthub_360_innovation.Base.Result.{Result, ok, err, ◌>>=◌, ◌>>◌, throw_if}
use birthub_360_innovation.Runner.{
  WorkflowStep, WorkflowStatus, TriggerType, StepResult, TriggerPayload, QueuedJob,
}
use birthub_360_innovation.Runner.Trigger.{
  is_published, is_trigger_type, new_execution, trigger_job,
}
use birthub_360_innovation.Workflows.{
  Store, Row, UpdateInput, Host, Draw, ServiceError, duplicate_name, workflow_not_found,
  workflow_not_found_after_update, workflow_not_published, WorkflowCanvas,
}
use birthub_360_innovation.Workflows.Canvas.{ensure_canvas_is_dag, persist_canvas}
use birthub_360_innovation.Workflows.Service.{
  or_throw, resolve_scoped_identity, schedule, is_row, is_named, PersistedWorkflow,
  get_workflow_by_id,
}

-- The state, the time of the publication and that of the archiving, for a new state.
unfoldable pub set_status : ℕ → Option WorkflowStatus → Row → Row
set_status time none r = r
set_status time (some WorkflowStatus.archived) r = record r {
  workflow = record (r.workflow) { status = WorkflowStatus.archived };
  archived_at = some time;
  published_at = none;
}
set_status time (some WorkflowStatus.published) r = record r {
  workflow = record (r.workflow) { status = WorkflowStatus.published };
  archived_at = none;
  published_at = some time;
}
set_status time (some WorkflowStatus.draft) r = record r {
  workflow = record (r.workflow) { status = WorkflowStatus.draft };
  archived_at = none;
  published_at = none;
}

abbrev pub or_else : Option String → Option String → Option String
or_else none old = old
or_else (some new) old = some new

-- `workflowUpdateData`, applied.
unfoldable pub apply_update : ℕ → UpdateInput → Row → Row
apply_update time input r =
    let changed : Row = set_status time input.status r in
    record changed {
      workflow = record (changed.workflow) {
        max_depth = get_or input.max_depth r.workflow.max_depth;
      };
      name = get_or input.name r.name;
      description = or_else input.description r.description;
      definition = get_or input.canvas r.definition;
      trigger_type = get_or input.trigger_type r.trigger_type;
      trigger_config = get_or input.trigger_config r.trigger_config;
      cron_expression = or_else input.cron_expression r.cron_expression;
      event_topic = or_else input.event_topic r.event_topic;
    }

-- The steps and transitions that the transaction leaves, if there is a canvas.
unfoldable pub replace_canvas : (ℕ → String) → Option WorkflowCanvas → Row → Result ServiceError Row
replace_canvas step_id none r = ok r
replace_canvas step_id (some canvas) r = do
  made ← persist_canvas step_id canvas
  ok (record r { workflow = record (r.workflow) { steps = made.0; transitions = made.1 } })

-- The deletion of a step deletes its results.
unfoldable pub drop_results : Option WorkflowCanvas → Row → List StepResult → List StepResult
drop_results none r results = results
drop_results (some canvas) r results =
    filter (λ x. not (any (λ (p : WorkflowStep). str_eq p.id x.step_id) r.workflow.steps)) results

unfoldable pub check_canvas : Option WorkflowCanvas → Result ServiceError (Unit {0})
check_canvas none = ok tt
check_canvas (some canvas) = ensure_canvas_is_dag canvas >>= λ valid. ok tt

-- What `updateWorkflow` checks, and the row as it was.
unfoldable pub accept_update : String → String → UpdateInput → Store → Result ServiceError Row
accept_update workflow_id tenant_reference input s = do
  identity ← resolve_scoped_identity tenant_reference s
  existing ← or_throw workflow_not_found (get_workflow_by_id workflow_id identity.tenant_id s)
  check_canvas input.canvas
  throw_if
      (any
        (is_named workflow_id existing.row.workflow.tenant_id (get_or input.name existing.row.name))
        s.rows)
      duplicate_name
  ok existing.row

-- The row as it was, and the row that the transaction leaves.
unfoldable pub updated_row :
    Draw → String → String → UpdateInput → Store → Result ServiceError (Row × Row)
updated_row draw workflow_id tenant_reference input s = do
  existing ← accept_update workflow_id tenant_reference input s
  left ← replace_canvas draw.step_id input.canvas (apply_update draw.time input existing)
  ok (existing, left)

unfoldable pub update_workflow :
    Host
    → Draw
    → String
    → String
    → UpdateInput
    → Store
    → Store × Result ServiceError PersistedWorkflow
update_workflow host draw workflow_id tenant_reference input s =
    elim (updated_row draw workflow_id tenant_reference input s) [
      | err e ↦ (s, err e)
      | ok (existing, updated) ↦
          let saved = record s {
            rows = update_where (λ r. str_eq r.workflow.id workflow_id) (λ r. updated) s.rows;
            results = drop_results input.canvas existing s.results;
          } in
          elim (schedule host (get_or input.trigger_type existing.trigger_type) updated saved) [
            | err e ↦ (saved, err e)
            | ok left ↦ (
              left,
              or_throw workflow_not_found_after_update
                  (get_workflow_by_id workflow_id existing.workflow.tenant_id left),
            )
          ]
    ]

abbrev pub archive : ℕ → Row → Row
archive time r = record r {
  workflow = record (r.workflow) { status = WorkflowStatus.archived };
  archived_at = some time;
}

unfoldable pub archive_workflow : ℕ → String → String → Store → Result ServiceError Store
archive_workflow time workflow_id tenant_reference s = do
  identity ← resolve_scoped_identity tenant_reference s
  ok (record s {
    rows = update_where (is_row workflow_id identity.tenant_id) (archive time) s.rows;
  })

-- The published workflow that is to be run.
unfoldable pub runnable : String → String → Store → Result ServiceError Row
runnable workflow_id tenant_reference s = do
  identity ← resolve_scoped_identity tenant_reference s
  found ← or_throw workflow_not_found (get_workflow_by_id workflow_id identity.tenant_id s)
  throw_if (not (is_published found.row.workflow.status)) workflow_not_published
  ok found.row

unfoldable pub trigger_payload : Value → TriggerType → Row → TriggerPayload
trigger_payload payload trigger_type row = record {
  organization_id = row.organization_id;
  tenant_id = row.workflow.tenant_id;
  trigger_payload = payload;
  trigger_type = trigger_type;
  workflow_id = row.workflow.id;
}

-- `enqueueWorkflowExecution` of runnerQueue.ts: a job under an id that the queue holds is ignored.
unfoldable pub enqueue_workflow_execution : QueuedJob → Store → Store
enqueue_workflow_execution job s =
    if any (str_eq job.job_id) s.held
    then s
    else record s { queue = s.queue ++ job ∷ []; held = s.held ++ job.job_id ∷ [] }

-- The id of the execution is returned. The id of a trigger's job has the time in it, and is taken to be
-- one that the queue does not hold.
unfoldable pub run_workflow_now :
    Draw → String → String → Value → TriggerType → Store → Store × Result ServiceError String
run_workflow_now draw workflow_id tenant_reference payload trigger_type s =
    elim (runnable workflow_id tenant_reference s) [
      | err e ↦ (s, err e)
      | ok row ↦
          let given = trigger_payload payload trigger_type row in
          let begun = record s {
            executions =
                s.executions ++ new_execution draw.row_id draw.time given row.workflow ∷ [];
          } in
          let left : Store =
            elim (find (λ (p : WorkflowStep). is_trigger_type p.type) row.workflow.steps) [
              | some step ↦ enqueue_workflow_execution (trigger_job draw.row_id given step) begun
              | none ↦ record begun { triggers = s.triggers ++ given ∷ [] }
            ] in
          (left, ok draw.row_id)
    ]
