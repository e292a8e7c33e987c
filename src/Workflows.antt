-- ===== src/Workflows.antt =====
-- apps/api/src/modules/workflows/service.ts: the rows that the service of the workflows reads and
-- writes, what it is given, and the errors that it throws. The rows that the worker reads too are
-- those of `Runner`. The children model the functions of the file.
pub mod Canvas
pub mod Service
pub mod Update
pub mod System
pub mod Linked
pub mod Complete
pub mod Refused
pub mod Run
mod Examples
use birthub_360_innovation.Base.{ℕ, String, Bool, List, Option}
use birthub_360_innovation.Base.Json.{Value}
use birthub_360_innovation.Dag.{StepType, Route, GraphError}
use birthub_360_innovation.Runner.{
  Workflow, WorkflowStatus, TriggerType, Execution, StepResult, QuotaUsage, QueuedJob,
  TriggerPayload,
}
use birthub_360_innovation.Auth.{Organization}

pub record CanvasStep : Type 0 where
  pub config : Value
  pub is_trigger : Option Bool
  pub key : String
  pub name : String
  pub type : StepType

pub record CanvasTransition : Type 0 where
  pub route : Route
  pub source : String
  pub target : String

pub record WorkflowCanvas : Type 0 where
  pub steps : List CanvasStep
  pub transitions : List CanvasTransition

pub record CreateInput : Type 0 where
  pub canvas : WorkflowCanvas
  pub cron_expression : Option String
  pub description : Option String
  pub event_topic : Option String
  pub max_depth : ℕ
  pub name : String
  pub status : WorkflowStatus
  pub trigger_config : Value
  pub trigger_type : TriggerType

-- `none` for what is undefined.
pub record UpdateInput : Type 0 where
  pub canvas : Option WorkflowCanvas
  pub cron_expression : Option String
  pub description : Option String
  pub event_topic : Option String
  pub max_depth : Option ℕ
  pub name : Option String
  pub status : Option WorkflowStatus
  pub trigger_config : Option Value
  pub trigger_type : Option TriggerType

-- A row of the workflows: what the worker reads, with its steps and transitions, and the rest.
pub record Row : Type 0 where
  pub workflow : Workflow
  pub organization_id : String
  pub name : String
  pub description : Option String
  pub definition : WorkflowCanvas
  pub trigger_type : TriggerType
  pub trigger_config : Value
  pub webhook_secret : Option String
  pub cron_expression : Option String
  pub event_topic : Option String
  pub published_at : Option ℕ
  pub archived_at : Option ℕ

-- A repeated job that the service asks for.
pub record CronJob : Type 0 where
  pub cron : String
  pub payload : TriggerPayload

pub record Store : Type 0 where
  pub organizations : List Organization
  pub rows : List Row
  pub executions : List Execution
  pub results : List StepResult
  pub quotas : List QuotaUsage
  pub queue : List QueuedJob
  pub held : List String
  pub triggers : List TriggerPayload
  pub crons : List CronJob

pub data ServiceError : Type 0 where
  organization_not_found workflow_transition_missing_endpoint no_first_step duplicate_name
        duplicate_step_key duplicate_transition workflow_create_failed workflow_not_found
        workflow_not_found_after_update workflow_not_published payment_required invalid_cron :
      ServiceError
  invalid_canvas : GraphError → ServiceError

-- What the file takes from elsewhere: the limits of a tenant's plan, SHA-256 in hexadecimal, and whether
-- the queue takes a text as the pattern of a repeated job; of any other it throws.
pub record Host : Type 0 where
  pub plan_limits : String → Value
  pub sha256 : String → String
  pub accepts_cron : String → Bool

-- What one call draws: the time, the id of a new workflow or execution, the ids of its new steps in
-- the order of their creation, and a random text.
pub record Draw : Type 0 where
  pub time : ℕ
  pub row_id : String
  pub step_id : ℕ → String
  pub uuid : String
