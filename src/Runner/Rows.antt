-- ===== src/Runner/Rows.antt =====
-- The row of a job in the table of the results: `processExecutionJob` of apps/worker/src/engine/runner.ts
-- adds it, or rejects.
use birthub_360_innovation.Base.{
  Bool, true, false, ◌&&◌, ◌==◌, List, [], ◌∷◌, ◌++◌, ◌≡◌, ◌⊎◌, str_eq, any, ℕ,
}
use birthub_360_innovation.Base.Result.{Result}
use birthub_360_innovation.Runner.{
  Store, Execution, Workflow, WorkflowStep, StepResult, JobPayload, Host, Moment,
}

-- The row is that of a step at the attempt of a job.
abbrev pub IsRowOf : WorkflowStep → JobPayload → StepResult → Type 0
IsRowOf step payload r =
    (r.execution_id ≡ payload.execution_id) × (r.step_id ≡ step.id) × (r.attempt ≡ payload.attempt)

abbrev pub has_row : WorkflowStep → JobPayload → List StepResult → Bool
has_row step payload = any (λ x.
    str_eq x.execution_id payload.execution_id
    && str_eq x.step_id step.id
    && x.attempt == payload.attempt)

module _ (host : Host) (clock : Moment → ℕ) (payload : JobPayload) (s : Store)
    (execution : Execution) (workflow : Workflow) (step : WorkflowStep) where
  -- The row is added and the call returns, or the row is there, the call rejects, and the queue, the
  -- executions and the results stay.
  abbrev pub Recorded : Store × Bool → Type 0
  Recorded left =
      ((has_row step payload s.results ≡ false)
        × (left.1 ≡ true)
        × (r : StepResult) × (left.0.results ≡ s.results ++ r ∷ [])
        × IsRowOf step payload r)
      ⊎ ((has_row step payload s.results ≡ true)
          × (left.1 ≡ false)
          × (left.0.results ≡ s.results)
          × (left.0.queue ≡ s.queue)
          × (left.0.executions ≡ s.executions))
