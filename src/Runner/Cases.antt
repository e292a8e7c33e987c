-- ===== src/Runner/Cases.antt =====
-- The ways through `processExecutionJob`, as a rule for proofs about the store that it leaves.
use birthub_360_innovation.Base.{
  ℕ, ◌<◌, String, false, ◌&&◌, Option, some, ◌≡◌, refl, inl, inr, arith, leb, Bool-cases,
  Option-cases, str_eq, find, max,
}
use birthub_360_innovation.Base.Json.{Value}
use birthub_360_innovation.Base.Result.{Result, ok, err, Result-cases}
use birthub_360_innovation.Runner.{
  Store, Execution, Workflow, WorkflowStep, JobPayload, Host, Moment, StepContext, StepResult,
  cache_cutoff, now, create_result,
}
use birthub_360_innovation.Runner.Budget.{consume_shared_agent_budget}
use birthub_360_innovation.Runner.Step.{run_step, compute_output, steps_context, step_input_hash}
use birthub_360_innovation.Runner.Retry.{succeed, fail, success_result, failure_result}
use birthub_360_innovation.Runner.Job.{
  abort, attempt_step, process_step, process_execution_job, is_cancelled, catch_step,
}

-- The parts of the store that the step itself does not touch.
pub record SameRest (s s' : Store) : Type 0 where
  pub queue : s'.queue ≡ s.queue
  pub executions : s'.executions ≡ s.executions
  pub workflows : s'.workflows ≡ s.workflows
  pub held : s'.held ≡ s.held

consume-SameRest :
    (tenant_id : String) (s s' : Store)
    → consume_shared_agent_budget tenant_id s ≡ ok s'
    → SameRest s s'
unfolding consume_shared_agent_budget
consume-SameRest tenant_id s s' h = ground arith

run_step-SameRest :
    (host : Host) (step : WorkflowStep) (context : StepContext) (s : Store)
    → SameRest s (run_step host step context s).0
unfolding run_step
run_step-SameRest host step context s =
    go (consume_shared_agent_budget context.payload.tenant_id s) refl
  where
    go :
        (r : Result (Option String) Store)
        → consume_shared_agent_budget context.payload.tenant_id s ≡ r
        → SameRest s (run_step host step context s).0
    go (ok s') e = ground (arith, e, consume-SameRest context.payload.tenant_id s s' e)
    go (err x) e = ground (arith, e)

pub compute_output-SameRest :
    (host : Host) (time : ℕ) (hash : String) (step : WorkflowStep) (context : StepContext)
    (s : Store)
    → SameRest s (compute_output host time hash step context s).0
unfolding compute_output
compute_output-SameRest host time hash step context s =
    ground (arith, run_step-SameRest host step context s)

-- What holds where the step is attempted.
pub record Attempted (payload : JobPayload) (s : Store) (execution : Execution)
    (workflow : Workflow) (step : WorkflowStep) : Type 0 where
  pub found_execution : find (λ e. str_eq e.id payload.execution_id) s.executions ≡ some execution
  pub live : is_cancelled execution.status ≡ false
  pub found_workflow :
      find
        (λ w. str_eq w.id payload.workflow_id && str_eq w.tenant_id payload.tenant_id)
        s.workflows
      ≡ some workflow
  pub shallow : execution.depth < max 1 workflow.max_depth
  pub found_step : find (λ p. str_eq p.key payload.step_key) workflow.steps ≡ some step

pub create-SameRest :
    (r : StepResult) (s s' recorded : Store)
    → SameRest s s'
    → create_result r s' ≡ some recorded
    → SameRest s recorded
unfolding create_result
create-SameRest r s s' recorded same made = ground (arith, same, made)

module _ {ℓ} (P : Store → Type ℓ) (host : Host) (clock : Moment → ℕ) (payload : JobPayload)
    (s : Store) where
  module _ (execution : Execution) (workflow : Workflow) (step : WorkflowStep)
      (bad : (thrown : Option String) (r : Store)
        → SameRest s r
        → P (fail clock execution workflow step payload thrown r))
      (unsaved : (s' : Store) → SameRest s s' → P s') where
    catch_step_cases :
        (hash : String) (thrown : Option String) (s' : Store)
        → SameRest s s'
        → P (catch_step clock hash execution workflow step payload thrown s').0
    unfolding catch_step
    catch_step_cases hash thrown s' same =
        let row = failure_result (clock now) hash step payload thrown in
        elim (Option-cases (create_result row s')) [
          | inl taken ↦ rw (taken, catch_step) (unsaved s' same)
          | inr (r, made) ↦
              rw (made, catch_step) (bad thrown r (create-SameRest row s s' r same made))
        ]

    pub attempt_step_cases :
        ((value : Value) (r : Store)
          → SameRest s r
          → P (succeed host clock execution workflow step payload value r))
        → P (attempt_step host clock execution workflow step payload s).0
    unfolding attempt_step
    attempt_step_cases good = elim (Result-cases ran.1) [
      | inl (thrown, e) ↦ rw (e, attempt_step) (catch_step_cases hash thrown ran.0 same)
      | inr (value, e) ↦
          let row = success_result host (clock now) hash step payload value in
          elim (Option-cases (create_result row ran.0)) [
            | inl taken ↦
                rw (e, taken, attempt_step)
                  (catch_step_cases hash (some host.unique_violation) ran.0 same)
            | inr (r, made) ↦
                rw (e, made, attempt_step) (good value r (create-SameRest row s ran.0 r same made))
          ]
    ]
      where
        given : StepContext
        given = record { steps = steps_context payload s.results; payload = payload }

        hash : String
        hash = step_input_hash host step given.steps payload

        ran : Store × Result (Option String) Value
        ran = compute_output host (clock cache_cutoff) hash step given s

        same : SameRest s ran.0
        same = compute_output-SameRest host (clock cache_cutoff) hash step given s

  pub process_step_cases :
      (execution : Execution) (workflow : Workflow)
      → P s
      → ((message : String) → P (abort clock payload message s))
      → ((step : WorkflowStep)
          → execution.depth < max 1 workflow.max_depth
          → find (λ p. str_eq p.key payload.step_key) workflow.steps ≡ some step
          → P (attempt_step host clock execution workflow step payload s).0)
      → P (process_step host clock execution workflow payload s).0
  unfolding process_step
  process_step_cases execution workflow same stopped tried =
      elim (Bool-cases (leb (max 1 workflow.max_depth) execution.depth)) [
        | inl deep ↦ rw (deep, process_step) (stopped _)
        | inr shallow ↦
            elim (Option-cases (find (λ p. str_eq p.key payload.step_key) workflow.steps)) [
              | inl missing ↦ rw (shallow, missing, process_step) (stopped _)
              | inr (step, found) ↦ elim (Bool-cases (host.accepts_step step)) [
                | inl fine ↦
                    rw (shallow, found, fine, process_step) (tried step (ground arith) found)
                | inr refused ↦ rw (shallow, found, refused, process_step) same
              ]
            ]
      ]

  pub process_cases :
      P s
      → ((message : String) → P (abort clock payload message s))
      → ((execution : Execution) (workflow : Workflow) (step : WorkflowStep)
          → Attempted payload s execution workflow step
          → P (attempt_step host clock execution workflow step payload s).0)
      → P (process_execution_job host clock payload s).0
  unfolding process_execution_job
  process_cases same stopped tried =
      elim (Option-cases (find (λ e. str_eq e.id payload.execution_id) s.executions)) [
        | inl missing ↦ rw (missing, process_execution_job) same
        | inr (execution, found) ↦ elim (Bool-cases (is_cancelled execution.status)) [
          | inl cancelled ↦ rw (found, cancelled, process_execution_job) same
          | inr live ↦
              elim (Option-cases (
                find (λ w. str_eq w.id payload.workflow_id && str_eq w.tenant_id payload.tenant_id)
                  s.workflows)) [
                    | inl unknown ↦ rw (found, live, unknown, process_execution_job) (stopped _)
                    | inr (workflow, known) ↦
                        rw (found, live, known, process_execution_job)
                          (process_step_cases execution workflow same stopped (λ step shallow there.
                            tried execution workflow step (record {
                              found_execution = found;
                              live = live;
                              found_workflow = known;
                              shallow = shallow;
                              found_step = there;
                            })))
                  ]
        ]
      ]
