-- ===== src/Workflows/System.antt =====
-- The service and the worker at work on one database and one queue: the steps of either, in any order.
-- Each call is one step, and so is the removal of jobs, whose ids the queue then holds no longer.
use birthub_360_innovation.Base.{ℕ, String, Bool, [], List, map, filter, ◌≡◌}
use birthub_360_innovation.Base.Json.{Value}
use birthub_360_innovation.Base.Result.{ok}
use birthub_360_innovation.Auth.{Organization}
use birthub_360_innovation.Runner as Worker
use birthub_360_innovation.Runner.{TriggerType, TriggerPayload, JobPayload, Moment}
use birthub_360_innovation.Runner.Trigger.{process_trigger_job}
use birthub_360_innovation.Runner.Job.{process_execution_job}
use birthub_360_innovation.Workflows.{Store, CreateInput, UpdateInput, Host, Draw}
use birthub_360_innovation.Workflows.Service.{create_workflow}
use birthub_360_innovation.Workflows.Update.{update_workflow, archive_workflow, run_workflow_now}

-- What the worker sees of the store, and the store with what the worker has left.
unfoldable pub worker_store : Store → Worker.Store
worker_store s = record {
  workflows = map (λ r. r.workflow) s.rows;
  executions = s.executions;
  results = s.results;
  quotas = s.quotas;
  queue = s.queue;
  held = s.held;
}

unfoldable pub after_worker : Worker.Store → Store → Store
after_worker w s = record s {
  executions = w.executions;
  results = w.results;
  quotas = w.quotas;
  queue = w.queue;
  held = w.held;
}

abbrev pub empty : List Organization → Store
empty organizations = record {
  organizations = organizations;
  rows = [];
  executions = [];
  results = [];
  quotas = [];
  queue = [];
  held = [];
  triggers = [];
  crons = [];
}

pub data Step (s : Store) : Store → Type 0 where
  create :
      (host : Host) (draw : Draw) (tenant_reference : String) (input : CreateInput)
      → Step s (create_workflow host draw tenant_reference input s).0
  update :
      (host : Host) (draw : Draw) (workflow_id tenant_reference : String) (input : UpdateInput)
      → Step s (update_workflow host draw workflow_id tenant_reference input s).0
  archive :
      (time : ℕ) (workflow_id tenant_reference : String) (s' : Store)
      → archive_workflow time workflow_id tenant_reference s ≡ ok s'
      → Step s s'
  run :
      (draw : Draw) (workflow_id tenant_reference : String) (payload : Value)
      (trigger_type : TriggerType)
      → Step s (run_workflow_now draw workflow_id tenant_reference payload trigger_type s).0
  trigger :
      (id : String) (started_at completed_at : ℕ) (payload : TriggerPayload)
      → Step s
          (after_worker (process_trigger_job id started_at completed_at payload (worker_store s)) s)
  work :
      (host : Worker.Host) (clock : Moment → ℕ) (payload : JobPayload)
      → Step s (after_worker (process_execution_job host clock payload (worker_store s)).0 s)
  remove : (keeps : String → Bool) → Step s (record s { held = filter keeps s.held })

-- The stores to which steps lead from a database with no workflow.
pub data Reachable : Store → Type 0 where
  start : (organizations : List Organization) → Reachable (empty organizations)
  next : {s s' : Store} → Reachable s → Step s s' → Reachable s'
