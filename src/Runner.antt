-- ===== src/Runner.antt =====
-- apps/worker/src/engine/runner.ts: the rows that the workflow runner reads and writes, the queue, and
-- what it takes from elsewhere. A table is the list of its rows in the order of their creation, and
-- the queue the list of the jobs that it has taken. The queue takes no job under an id that it holds;
-- it holds the id of a job from when it is taken until the job is removed (worker.ts keeps the latest 500
-- of the completed jobs, and of the failed). The children model the functions of the file.
pub mod Output
pub mod Budget
pub mod Trigger
pub mod Step
pub mod Retry
pub mod Job
pub mod Queue
pub mod Cases
pub mod Jobs
pub mod Depth
pub mod Rows
pub mod Linked
pub mod Forward
pub mod Progress
mod Examples
use birthub_360_innovation.Base.{
  ℕ, String, Bool, ◌&&◌, List, [], ◌∷◌, ◌++◌, map, Option, none, some, ◌==◌, if◌then◌else◌, str_eq,
  any,
}
use birthub_360_innovation.Base.Int.{ℤ, Number}
use birthub_360_innovation.Base.Json.{Value}
use birthub_360_innovation.Dag.{StepType, Route}
use birthub_360_innovation.Base.Result.{Result}

pub data OnError : Type 0 where
  stop continue : OnError

pub data StepStatus : Type 0 where
  success failed skipped waiting : StepStatus

pub data ExecutionStatus : Type 0 where
  running success failed cancelled waiting : ExecutionStatus

pub data WorkflowStatus : Type 0 where
  draft published archived : WorkflowStatus

pub data TriggerType : Type 0 where
  manual webhook cron event : TriggerType

pub data ResourceType : Type 0 where
  emails_sent ai_prompts workflow_runs storage_gb api_requests : ResourceType

pub record WorkflowStep : Type 0 where
  pub id : String
  pub key : String
  pub name : String
  pub type : StepType
  pub config : Value
  pub is_trigger : Bool
  pub cache_ttl_seconds : Option ℕ
  pub on_error : OnError

pub record Transition : Type 0 where
  pub source_step_id : String
  pub target_step_id : String
  pub route : Route

pub record Workflow : Type 0 where
  pub id : String
  pub tenant_id : String
  pub status : WorkflowStatus
  pub max_depth : ℕ
  pub steps : List WorkflowStep
  pub transitions : List Transition

-- Times are in milliseconds.
pub record Execution : Type 0 where
  pub id : String
  pub organization_id : String
  pub tenant_id : String
  pub workflow_id : String
  pub status : ExecutionStatus
  pub trigger_type : TriggerType
  pub trigger_payload : Value
  pub depth : ℕ
  pub started_at : ℕ
  pub completed_at : Option ℕ
  pub duration_ms : Option ℤ
  pub error_message : Option String

-- `step_key` is the key of the step that the row refers to.
pub record StepResult : Type 0 where
  pub attempt : ℕ
  pub error_message : Option String
  pub execution_id : String
  pub external_payload_url : Option String
  pub finished_at : ℕ
  pub input : Value
  pub organization_id : String
  pub output : Value
  pub output_preview : Option String
  pub output_size : ℕ
  pub started_at : ℕ
  pub status : StepStatus
  pub step_id : String
  pub step_key : String
  pub tenant_id : String
  pub workflow_id : String

pub record QuotaUsage : Type 0 where
  pub id : String
  pub tenant_id : String
  pub resource_type : ResourceType
  pub count : ℕ
  pub limit : ℕ
  pub reset_at : ℕ

pub record JobPayload : Type 0 where
  pub attempt : ℕ
  pub execution_id : String
  pub organization_id : String
  pub step_key : String
  pub tenant_id : String
  pub trigger_payload : Value
  pub trigger_type : TriggerType
  pub workflow_id : String

pub record TriggerPayload : Type 0 where
  pub organization_id : String
  pub tenant_id : String
  pub trigger_payload : Value
  pub trigger_type : TriggerType
  pub workflow_id : String

pub record QueuedJob : Type 0 where
  pub payload : JobPayload
  pub delay : Option Number
  pub job_id : String

pub record Store : Type 0 where
  pub workflows : List Workflow
  pub executions : List Execution
  pub results : List StepResult
  pub quotas : List QuotaUsage
  pub queue : List QueuedJob
  pub held : List String

-- The points at which one call reads the clock; `enqueue i` is in the loop over the followed
-- transitions, at the i-th of them.
pub data Moment : Type 0 where
  now cache_cutoff completed duration : Moment
  enqueue : ℕ → Moment

-- What a step was given: `stepsContext`, and the payload of the job.
pub record StepContext : Type 0 where
  pub steps : Value
  pub payload : JobPayload

-- What the file takes from elsewhere: `JSON.stringify`, the SHA-256 digest in hexadecimal, the
-- conversion `Number(x)`, whether `stepSchema.parse` accepts a step, and `executeStep` with the
-- runner's dependencies, which answers a value or throws. A thrown `Error` shows its message; of
-- anything else that is thrown nothing is known. `unique_violation` is the message of the error that the
-- database client throws where a unique key is there already.
pub record Host : Type 0 where
  pub stringify : Value → String
  pub sha256 : String → String
  pub to_number : Value → Number
  pub accepts_step : WorkflowStep → Bool
  pub execute_step : WorkflowStep → StepContext → Result (Option String) Value
  pub unique_violation : String

abbrev pub max_attempts : ℕ
max_attempts = 5

-- `prisma.workflowExecution.update`.
unfoldable pub update_execution : String → (Execution → Execution) → Store → Store
update_execution id change s = record s {
  executions = map (λ e. if str_eq e.id id then change e else e) s.executions;
}

-- A row of the same execution, step and attempt is there: the key is unique in the table.
unfoldable pub is_taken : StepResult → List StepResult → Bool
is_taken r = any (λ x.
    str_eq x.execution_id r.execution_id && str_eq x.step_id r.step_id && x.attempt == r.attempt)

-- `prisma.stepResult.create`, which throws where the key is taken.
unfoldable pub create_result : StepResult → Store → Option Store
create_result r s =
    if is_taken r s.results then none else some (record s { results = s.results ++ r ∷ [] })

-- `executionQueue.add`: a job under an id that the queue holds is ignored.
unfoldable pub add_job : QueuedJob → Store → Store
add_job job s =
    if any (str_eq job.job_id) s.held
    then s
    else record s { queue = s.queue ++ job ∷ []; held = s.held ++ job.job_id ∷ [] }

unfoldable pub add_jobs : List QueuedJob → Store → Store
add_jobs [] s = s
add_jobs (job ∷ jobs) s = add_jobs jobs (add_job job s)
