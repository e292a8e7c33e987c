-- ===== src/Runner/Job.antt =====
-- `WorkflowRunner.processExecutionJob`.
use birthub_360_innovation.Base.{
  ℕ, String, Bool, true, false, ◌&&◌, Option, none, some, leb, if◌then◌else◌, str_eq, find, max,
  decimal,
}
use birthub_360_innovation.Base.Result.{ok, err}
use birthub_360_innovation.Runner.{
  Store, ExecutionStatus, Execution, Workflow, WorkflowStep, JobPayload, Host, Moment, cache_cutoff,
  completed, now, update_execution, create_result,
}
use birthub_360_innovation.Runner.Output.{◌&◌}
use birthub_360_innovation.Runner.Step.{steps_context, step_input_hash, compute_output}
use birthub_360_innovation.Runner.Retry.{succeed, fail, success_result, failure_result}

abbrev pub is_cancelled : ExecutionStatus → Bool
is_cancelled ExecutionStatus.cancelled = true
is_cancelled _ = false

-- An execution that cannot go on.
unfoldable pub abort : (Moment → ℕ) → JobPayload → String → Store → Store
abort clock payload message = update_execution payload.execution_id (λ e. record e {
  completed_at = some (clock completed);
  error_message = some message;
  status = ExecutionStatus.failed;
})

-- The `catch` block: where the row of the failure cannot be created, the call rejects.
unfoldable pub catch_step :
    (Moment → ℕ)
    → String
    → Execution
    → Workflow
    → WorkflowStep
    → JobPayload
    → Option String
    → Store
    → Store × Bool
catch_step clock hash execution workflow step payload thrown s =
    elim (create_result (failure_result (clock now) hash step payload thrown) s) [
      | none ↦ (s, false)
      | some recorded ↦ (fail clock execution workflow step payload thrown recorded, true)
    ]

-- The `try` and `catch` blocks. If the row of the result cannot be created, the error is caught as one
-- of the step is.
unfoldable pub attempt_step :
    Host → (Moment → ℕ) → Execution → Workflow → WorkflowStep → JobPayload → Store → Store × Bool
attempt_step host clock execution workflow step payload s =
    let context = steps_context payload s.results in
    let hash = step_input_hash host step context payload in
    let (s', output) =
      compute_output host (clock cache_cutoff) hash step
        (record { steps = context; payload = payload }) s in
    elim output [
      | err thrown ↦ catch_step clock hash execution workflow step payload thrown s'
      | ok value ↦
          elim (create_result (success_result host (clock now) hash step payload value) s') [
            | none ↦
                catch_step clock hash execution workflow step payload (some host.unique_violation)
                  s'
            | some recorded ↦
                (succeed host clock execution workflow step payload value recorded, true)
          ]
    ]

-- With the execution and the workflow at hand.
unfoldable pub process_step :
    Host → (Moment → ℕ) → Execution → Workflow → JobPayload → Store → Store × Bool
process_step host clock execution workflow payload s =
    let max_depth = max 1 workflow.max_depth in
    if leb max_depth execution.depth
    then (abort clock payload ("Execution reached max_depth=" & decimal max_depth & ".") s, true)
    else elim (find (λ p. str_eq p.key payload.step_key) workflow.steps) [
      | none ↦
          (abort clock payload ("Step '" & payload.step_key & "' not found in workflow.") s, true)
      | some step ↦
          if host.accepts_step step
          then attempt_step host clock execution workflow step payload s
          else (s, false)
    ]

-- The store afterwards, and whether the call returns; it rejects where `stepSchema.parse` throws,
-- and where the row of the step cannot be created.
unfoldable pub process_execution_job : Host → (Moment → ℕ) → JobPayload → Store → Store × Bool
process_execution_job host clock payload s =
    elim (find (λ e. str_eq e.id payload.execution_id) s.executions) [
      | none ↦ (s, true)
      | some execution ↦
          if is_cancelled execution.status
          then (s, true)
          else elim (find
              (λ w. str_eq w.id payload.workflow_id && str_eq w.tenant_id payload.tenant_id)
              s.workflows) [
                | none ↦
                    (abort clock payload "Workflow definition not found during execution." s, true)
                | some workflow ↦ process_step host clock execution workflow payload s
              ]
    ]
