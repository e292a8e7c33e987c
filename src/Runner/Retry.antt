-- ===== src/Runner/Retry.antt =====
-- `processExecutionJob`, what follows a step: its row, the jobs of the next steps, and the `catch` block.
use birthub_360_innovation.Base.{
  ℕ, ◌+◌, String, Bool, true, false, ◌&&◌, ◌||◌, List, [], ◌∷◌, Option, none, some, ltb, ◌==◌,
  if◌then◌else◌, get_or, str_eq, length, filter, find, decimal,
}
use birthub_360_innovation.Base.Int.{sub_ℕ, Number, clamp, int}
use birthub_360_innovation.Base.Json.{
  Value, null, str, obj, field, end, member, is_null, is_undefined,
}
use birthub_360_innovation.Dag.{StepType}
use birthub_360_innovation.Runner.{
  Store, StepResult, StepStatus, ExecutionStatus, Execution, Workflow, WorkflowStep, Transition,
  JobPayload, QueuedJob, Host, Moment, completed, duration, enqueue, OnError, continue, add_jobs,
  update_execution, max_attempts,
}
use birthub_360_innovation.Runner.Output.{
  normalize_output, should_follow_transition, calculate_backoff, ◌&◌,
}

abbrev pub is_delay : StepType → Bool
is_delay StepType.delay = true
is_delay _ = false

unfoldable pub result_input : String → JobPayload → Value
result_input hash payload =
    obj (field "_cacheHash" (str hash) (field "triggerPayload" payload.trigger_payload end))

unfoldable pub success_result : Host → ℕ → String → WorkflowStep → JobPayload → Value → StepResult
success_result host time hash step payload output =
    let out = normalize_output host output payload.execution_id step.key in
    record {
      attempt = payload.attempt;
      error_message = none;
      execution_id = payload.execution_id;
      external_payload_url = out.external_payload_url;
      finished_at = time;
      input = result_input hash payload;
      organization_id = payload.organization_id;
      output = out.output;
      output_preview = out.output_preview;
      output_size = out.output_size;
      started_at = time;
      status = if is_delay step.type then StepStatus.waiting else StepStatus.success;
      step_id = step.id;
      step_key = step.key;
      tenant_id = payload.tenant_id;
      workflow_id = payload.workflow_id;
    }

unfoldable pub failure_result : ℕ → String → WorkflowStep → JobPayload → Option String → StepResult
failure_result time hash step payload thrown = record {
  attempt = payload.attempt;
  error_message = some (get_or thrown "Unknown step execution error");
  execution_id = payload.execution_id;
  external_payload_url = none;
  finished_at = time;
  input = result_input hash payload;
  organization_id = payload.organization_id;
  output = null;
  output_preview = none;
  output_size = 0;
  started_at = time;
  status = StepStatus.failed;
  step_id = step.id;
  step_key = step.key;
  tenant_id = payload.tenant_id;
  workflow_id = payload.workflow_id;
}

unfoldable pub next_id : JobPayload → (Moment → ℕ) → ℕ → String → String
next_id payload clock i key = payload.execution_id & ":" & key & ":" & decimal (clock (enqueue i))

-- The job of the step behind a transition, at the i-th transition of the loop.
unfoldable pub next_job : JobPayload → (Moment → ℕ) → Option Number → ℕ → WorkflowStep → QueuedJob
next_job payload clock delay i next = record {
  payload = record payload { attempt = 1; step_key = next.key };
  delay = delay;
  job_id = next_id payload clock i next.key;
}

-- The loop over the followed transitions: one whose target is no step is passed over.
unfoldable pub next_jobs :
    (ℕ → WorkflowStep → QueuedJob) → List WorkflowStep → ℕ → List Transition → List QueuedJob
next_jobs job steps i [] = []
next_jobs job steps i (t ∷ ts) =
    let rest = next_jobs job steps (i + 1) ts in
    elim (find (λ p. str_eq p.id t.target_step_id) steps) [
      | none ↦ rest
      | some next ↦ job i next ∷ rest
    ]

unfoldable pub followed : WorkflowStep → Value → Bool → List Transition → List Transition
followed step output failed =
    filter (λ t. str_eq t.source_step_id step.id && should_follow_transition t.route output failed)

-- `output?.delayMs ?? step.config.duration_ms`, as a delay. (A `null` there falls through too.)
unfoldable pub delay_of : Host → WorkflowStep → Value → Number
delay_of host step output =
    let own = member "delayMs" output in
    if is_delay step.type
    then clamp (
        host.to_number
          (if is_undefined own || is_null own then member "duration_ms" step.config else own))
    else int 0

-- The rest of the `try` block, once the row of the result is created.
unfoldable pub succeed :
    Host → (Moment → ℕ) → Execution → Workflow → WorkflowStep → JobPayload → Value → Store → Store
succeed host clock execution workflow step payload output s =
    let recorded =
      update_execution payload.execution_id (λ e. record e { depth = execution.depth + 1 }) s in
    let next = followed step output false workflow.transitions in
    let finished =
      update_execution payload.execution_id
        (λ e. record e {
          completed_at = some (clock completed);
          duration_ms = some (sub_ℕ (clock duration) execution.started_at);
          status = ExecutionStatus.success;
        })
        recorded in
    if length next == 0
    then finished
    else add_jobs
        (next_jobs (next_job payload clock (some (delay_of host step output))) workflow.steps 0
          next)
        recorded

unfoldable pub retry_job : JobPayload → QueuedJob
retry_job payload = record {
  payload = record payload { attempt = payload.attempt + 1 };
  delay = some (int (calculate_backoff payload.attempt));
  job_id = payload.execution_id & ":" & payload.step_key & ":" & decimal (payload.attempt + 1);
}

abbrev pub continues : OnError → Bool
continues continue = true
continues _ = false

-- The rest of the `catch` block, once the row of the failure is created.
unfoldable pub fail :
    (Moment → ℕ) → Execution → Workflow → WorkflowStep → JobPayload → Option String → Store → Store
fail clock execution workflow step payload thrown s =
    let fallbacks = followed step null true workflow.transitions in
    let jobs = next_jobs (next_job payload clock none) workflow.steps 0 fallbacks in
    let ended = update_execution payload.execution_id (λ e. record e {
      completed_at = some (clock completed);
      duration_ms = some (sub_ℕ (clock duration) execution.started_at);
      error_message = some (get_or thrown "Workflow execution failed");
      status = ExecutionStatus.failed;
    }) in
    if ltb payload.attempt max_attempts
    then add_jobs (retry_job payload ∷ []) s
    else if continues step.on_error && ltb 0 (length fallbacks)
    then add_jobs jobs s
    else ended s
