-- ===== src/Runner/Progress.antt =====
-- A job of a live execution brings the execution forward: a job follows it, or the execution ends.
use birthub_360_innovation.Base.{
  ℕ, String, true, false, ◌&&◌, Option, some, ◌≡◌, refl, inl, inr, leb, max, Bool-cases,
  Option-cases, str_eq, find, All, All-find,
}
use birthub_360_innovation.Base.Json.{Value}
use birthub_360_innovation.Base.Result.{Result, Result-cases}
use birthub_360_innovation.Runner.{
  Store, Execution, Workflow, WorkflowStep, JobPayload, Host, Moment, StepContext, create_result,
  cache_cutoff, now,
}
use birthub_360_innovation.Runner.Step.{steps_context, step_input_hash, compute_output}
use birthub_360_innovation.Runner.Retry.{succeed, fail, success_result, failure_result}
use birthub_360_innovation.Runner.Job.{
  abort, is_cancelled, catch_step, attempt_step, process_step, process_execution_job,
}
use birthub_360_innovation.Runner.Cases.{SameRest, compute_output-SameRest, create-SameRest}
use birthub_360_innovation.Runner.Linked.{IsLinked, is_begun, is_over-update}
use birthub_360_innovation.Runner.Forward.{Forward, HasFreeIds, succeed-Forward, fail-Forward}

-- The step itself leaves the queue and the executions as they are.
Forward-SameRest :
    (id : String) (s s' s'' : Store) → SameRest s s' → Forward id s' s'' → Forward id s s''
Forward-SameRest id s s' s'' same (inl more) = inl (rw (← same.queue) more)
Forward-SameRest id s s' s'' same (inr over) = inr over

module _ (host : Host) (clock : Moment → ℕ) (payload : JobPayload) (s : Store)
    (begun : is_begun payload.execution_id s.executions ≡ true) where
  abort-Forward :
      (message : String) → Forward payload.execution_id s (abort clock payload message s)
  unfolding abort
  abort-Forward message = inr (is_over-update _ _ s (λ e. refl) (λ e. refl) begun)

  module _ (free : HasFreeIds clock payload s.held) (execution : Execution) (workflow : Workflow)
      (step : WorkflowStep) (linked : IsLinked workflow) where
    from_same :
        (r s'' : Store)
        → SameRest s r
        → (is_begun payload.execution_id r.executions ≡ true
            → HasFreeIds clock payload r.held
            → Forward payload.execution_id r s'')
        → Forward payload.execution_id s s''
    from_same r s'' same k =
        Forward-SameRest payload.execution_id s r s'' same
          (k (rw same.executions begun) (rw same.held free))

    catch_step-Forward :
        (hash : String) (thrown : Option String) (s' : Store)
        → SameRest s s'
        → (catch_step clock hash execution workflow step payload thrown s').1 ≡ true
        → Forward payload.execution_id s
            (catch_step clock hash execution workflow step payload thrown s').0
    unfolding catch_step
    catch_step-Forward hash thrown s' same returned =
        let row = failure_result (clock now) hash step payload thrown in
        elim (Option-cases (create_result row s')) [
          | inl taken ↦ absurd (cc (rw (taken, catch_step) at returned))
          | inr (r, made) ↦
              rw (made, catch_step)
                (from_same r (fail clock execution workflow step payload thrown r)
                  (create-SameRest row s s' r same made)
                  (λ still ids.
                    fail-Forward clock execution workflow step payload r linked still ids thrown))
        ]

    attempt_step-Forward :
        (attempt_step host clock execution workflow step payload s).1 ≡ true
        → Forward payload.execution_id s
            (attempt_step host clock execution workflow step payload s).0
    unfolding attempt_step
    attempt_step-Forward returned = elim (Result-cases ran.1) [
      | inl (thrown, e) ↦
          rw (e, attempt_step)
            (catch_step-Forward hash thrown ran.0 same (rw (e, attempt_step) at returned))
      | inr (value, e) ↦
          let row = success_result host (clock now) hash step payload value in
          elim (Option-cases (create_result row ran.0)) [
            | inl taken ↦
                rw (e, taken, attempt_step)
                  (catch_step-Forward hash (some host.unique_violation) ran.0 same
                    (rw (e, taken, attempt_step) at returned))
            | inr (r, made) ↦
                rw (e, made, attempt_step)
                  (from_same r (succeed host clock execution workflow step payload value r)
                    (create-SameRest row s ran.0 r same made)
                    (λ still ids.
                      succeed-Forward clock execution workflow step payload r linked still ids host
                        value))
          ]
    ]
      where
        given : StepContext
        given = record { steps = steps_context payload s.results; payload = payload }

        hash : String
        hash = step_input_hash host step given.steps payload

        ran : Store × Result (Option String) Value
        ran = compute_output host (clock cache_cutoff) hash step given s

        same : SameRest s ran.0
        same = compute_output-SameRest host (clock cache_cutoff) hash step given s

  process_step-Forward :
      (execution : Execution) (workflow : Workflow)
      → IsLinked workflow
      → HasFreeIds clock payload s.held
      → (process_step host clock execution workflow payload s).1 ≡ true
      → Forward payload.execution_id s (process_step host clock execution workflow payload s).0
  unfolding process_step
  process_step-Forward execution workflow linked free returned =
      elim (Bool-cases (leb (max 1 workflow.max_depth) execution.depth)) [
        | inl deep ↦ rw (deep, process_step) (abort-Forward _)
        | inr shallow ↦
            elim (Option-cases (find (λ p. str_eq p.key payload.step_key) workflow.steps)) [
              | inl missing ↦ rw (shallow, missing, process_step) (abort-Forward _)
              | inr (step, found) ↦ elim (Bool-cases (host.accepts_step step)) [
                | inl fine ↦
                    rw (shallow, found, fine, process_step)
                      (attempt_step-Forward free execution workflow step linked
                        (rw (shallow, found, fine, process_step) at returned))
                | inr refused ↦ absurd (cc (rw (shallow, found, refused, process_step) at returned))
              ]
            ]
      ]

-- If every workflow is linked, the queue holds no id that the run may choose, and the handler returns on a job of an execution that is there and not
-- cancelled, then either a job was added to the queue or the execution has ended.
pub process_execution_job-Forward :
    (host : Host) (clock : Moment → ℕ) (payload : JobPayload) (s : Store) (execution : Execution)
    → All IsLinked s.workflows
    → HasFreeIds clock payload s.held
    → find (λ e. str_eq e.id payload.execution_id) s.executions ≡ some execution
    → is_cancelled execution.status ≡ false
    → (process_execution_job host clock payload s).1 ≡ true
    → Forward payload.execution_id s (process_execution_job host clock payload s).0
unfolding process_execution_job
process_execution_job-Forward host clock payload s execution linked free found live returned =
    let begun : is_begun payload.execution_id s.executions ≡ true = rw found refl in
    elim (Option-cases (
      find (λ w. str_eq w.id payload.workflow_id && str_eq w.tenant_id payload.tenant_id)
        s.workflows)) [
          | inl unknown ↦
              rw (found, live, unknown, process_execution_job)
                (abort-Forward host clock payload s begun _)
          | inr (workflow, known) ↦
              rw (found, live, known, process_execution_job)
                (process_step-Forward host clock payload s begun execution workflow
                  (All-find IsLinked _ s.workflows workflow linked known) free
                  (rw (found, live, known, process_execution_job) at returned))
        ]
