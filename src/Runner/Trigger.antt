-- ===== src/Runner/Trigger.antt =====
-- `WorkflowRunner.processTriggerJob`.
use birthub_360_innovation.Base.{
  ℕ, String, Bool, true, false, ◌&&◌, List, [], ◌∷◌, ◌++◌, Option, none, some, str_eq, find,
  str_append,
}
use birthub_360_innovation.Dag.{StepType, trigger_cron, trigger_event, trigger_webhook}
use birthub_360_innovation.Runner.{
  Store, Execution, ExecutionStatus, QueuedJob, TriggerPayload, Workflow, WorkflowStatus, published,
  WorkflowStep, add_jobs, update_execution,
}

abbrev pub is_published : WorkflowStatus → Bool
is_published published = true
is_published _ = false

abbrev pub is_trigger_type : StepType → Bool
is_trigger_type trigger_cron = true
is_trigger_type trigger_event = true
is_trigger_type trigger_webhook = true
is_trigger_type _ = false

-- The row that is created. The database chooses the id and the time of the start.
unfoldable pub new_execution : String → ℕ → TriggerPayload → Workflow → Execution
new_execution id started_at payload workflow = record {
  id = id;
  organization_id = payload.organization_id;
  tenant_id = payload.tenant_id;
  workflow_id = workflow.id;
  status = ExecutionStatus.running;
  trigger_type = payload.trigger_type;
  trigger_payload = payload.trigger_payload;
  depth = 0;
  started_at = started_at;
  completed_at = none;
  duration_ms = none;
  error_message = none;
}

unfoldable pub trigger_job : String → TriggerPayload → WorkflowStep → QueuedJob
trigger_job execution_id payload step = record {
  payload = record {
    attempt = 1;
    execution_id = execution_id;
    organization_id = payload.organization_id;
    step_key = step.key;
    tenant_id = payload.tenant_id;
    trigger_payload = payload.trigger_payload;
    trigger_type = payload.trigger_type;
    workflow_id = payload.workflow_id;
  };
  delay = none;
  job_id = str_append execution_id (str_append ":" (str_append step.key ":1"));
}

unfoldable pub find_workflow : TriggerPayload → List Workflow → Option Workflow
find_workflow payload = find (λ w.
    str_eq w.id payload.workflow_id
    && is_published w.status
    && str_eq w.tenant_id payload.tenant_id)

unfoldable pub process_trigger_job : String → ℕ → ℕ → TriggerPayload → Store → Store
process_trigger_job id started_at completed_at payload s =
    elim (find_workflow payload s.workflows) [
      | none ↦ s
      | some workflow ↦
          let created = record s {
            executions = s.executions ++ new_execution id started_at payload workflow ∷ [];
          } in
          elim (find (λ p. is_trigger_type p.type) workflow.steps) [
            | none ↦
                update_execution id
                  (λ e. record e {
                    completed_at = some completed_at;
                    error_message = some "Workflow has no trigger step configured.";
                    status = ExecutionStatus.failed;
                  })
                  created
            | some step ↦ add_jobs (trigger_job id payload step ∷ []) created
          ]
    ]
