-- ===== src/Runner/Examples.antt =====
-- The runner at work: a workflow of two steps, whose second throws.
use birthub_360_innovation.Base.{ℕ, String, true, false, [], ◌∷◌, Option, none, some, refl, arith}
use birthub_360_innovation.Base.Int.{int}
use birthub_360_innovation.Base.Json.{Value, null}
use birthub_360_innovation.Base.Result.{Result, ok, err}
use birthub_360_innovation.Dag.{StepType, trigger_webhook, http_request, on_success}
use birthub_360_innovation.Runner.{
  Store, OnError, ExecutionStatus, TriggerType, WorkflowStatus, ResourceType, Workflow,
  WorkflowStep, Execution, QuotaUsage, JobPayload, Host, Moment,
}
use birthub_360_innovation.Runner.{StepResult, StepStatus}
use birthub_360_innovation.Runner.Budget.{
  consume_shared_agent_budget, find_quota, latest, count_up, WithinLimits, consume-WithinLimits,
}
use birthub_360_innovation.Runner.Job.{process_execution_job}
use birthub_360_innovation.Runner.Jobs.{Grows, process_execution_job-Grows}
use birthub_360_innovation.Runner.Depth.{DepthWithin, process_execution_job-DepthWithin}

abbrev step : String → StepType → WorkflowStep
step key type = record {
  id = key;
  key = key;
  name = key;
  type = type;
  config = null;
  is_trigger = false;
  cache_ttl_seconds = none;
  on_error = OnError.stop;
}

abbrev workflow : Workflow
workflow = record {
  id = "w";
  tenant_id = "t";
  status = WorkflowStatus.published;
  max_depth = 10;
  steps = step "start" trigger_webhook ∷ step "call" http_request ∷ [];
  transitions =
      record { source_step_id = "start"; target_step_id = "call"; route = on_success } ∷ [];
}

abbrev execution : ExecutionStatus → Execution
execution status = record {
  id = "e";
  organization_id = "o";
  tenant_id = "t";
  workflow_id = "w";
  status = status;
  trigger_type = TriggerType.webhook;
  trigger_payload = null;
  depth = 0;
  started_at = 0;
  completed_at = none;
  duration_ms = none;
  error_message = none;
}

abbrev prompts : QuotaUsage
prompts = record {
  id = "q";
  tenant_id = "t";
  resource_type = ResourceType.ai_prompts;
  count = 4;
  limit = 5;
  reset_at = 0;
}

abbrev store : ExecutionStatus → Store
store status = record {
  workflows = workflow ∷ [];
  executions = execution status ∷ [];
  results = [];
  quotas = prompts ∷ [];
  queue = [];
  held = [];
}

abbrev payload : String → JobPayload
payload step_key = record {
  attempt = 1;
  execution_id = "e";
  organization_id = "o";
  step_key = step_key;
  tenant_id = "t";
  trigger_payload = null;
  trigger_type = TriggerType.webhook;
  workflow_id = "w";
}

-- A trigger answers null, and any other step throws.
abbrev run : StepType → Result (Option String) Value
run trigger_webhook = ok null
run _ = err (some "no network")

abbrev host : Host
host = record {
  stringify = λ v. "null";
  sha256 = λ t. t;
  to_number = λ v. int 0;
  accepts_step = λ p. true;
  execute_step = λ p c. run p.type;
  unique_violation = "unique";
}

abbrev clock : Moment → ℕ
clock m = 7

consume-WithinLimits_example : WithinLimits (record prompts { count = 5 } ∷ [])
unfolding consume_shared_agent_budget find_quota latest count_up
consume-WithinLimits_example =
    consume-WithinLimits "t" (store ExecutionStatus.running)
      (record (store ExecutionStatus.running) { quotas = record prompts { count = 5 } ∷ [] })
      (λ row found. (λ same. (ground arith, ground arith), tt)) (omega arith, tt) refl

process_execution_job-Grows_example :
    Grows
      (payload "call")
      (store ExecutionStatus.running)
      (process_execution_job host clock (payload "call") (store ExecutionStatus.running)).0
process_execution_job-Grows_example =
    process_execution_job-Grows host clock (payload "call") (store ExecutionStatus.running)

process_execution_job-DepthWithin_example :
    DepthWithin 10
      (process_execution_job host clock
        (payload "start")
        (store ExecutionStatus.running)).0.executions
process_execution_job-DepthWithin_example =
    process_execution_job-DepthWithin host clock (payload "start") (store ExecutionStatus.running)
      10 (omega arith) (omega arith, tt) (omega arith, tt)

abbrev row : StepResult
row = record {
  attempt = 1;
  error_message = none;
  execution_id = "e";
  external_payload_url = none;
  finished_at = 0;
  input = null;
  organization_id = "o";
  output = null;
  output_preview = none;
  output_size = 4;
  started_at = 0;
  status = StepStatus.success;
  step_id = "call";
  step_key = "call";
  tenant_id = "t";
  workflow_id = "w";
}

-- The step is reached a second time, as behind two branches that meet.
abbrev joined : Store
joined = record (store ExecutionStatus.running) { results = row ∷ [] }
