-- ===== src/Runner/Jobs.antt =====
-- What a run of `processExecutionJob` adds to the queue.
use birthub_360_innovation.Base.{
  ℕ, ◌+◌, ◌≤◌, String, true, false, ◌&&◌, List, [], ◌∷◌, ◌++◌, Option, none, some, ◌≡◌, refl, sym,
  inl, inr, arith, ltb, ◌==◌, Bool-cases, Option-cases, str_eq, length, find, All, append-nil,
}
use birthub_360_innovation.Base.Int.{Number}
use birthub_360_innovation.Base.Json.{Value, null}
use birthub_360_innovation.Runner.{
  Store, Execution, Workflow, WorkflowStep, Transition, JobPayload, QueuedJob, Host, Moment,
  update_execution, max_attempts,
}
use birthub_360_innovation.Runner.Retry.{
  next_job, next_jobs, followed, succeed, fail, retry_job, continues, delay_of,
}
use birthub_360_innovation.Runner.Cases.{SameRest, process_cases, attempt_step_cases}
use birthub_360_innovation.Runner.Queue.{add_jobs-queue}
use birthub_360_innovation.Runner.Job.{abort, process_execution_job}

-- A job that belongs to the execution of another, at an attempt that is allowed.
pub record IsOwn (payload : JobPayload) (job : QueuedJob) : Type 0 where
  pub execution : job.payload.execution_id ≡ payload.execution_id
  pub tenant : job.payload.tenant_id ≡ payload.tenant_id
  pub organization : job.payload.organization_id ≡ payload.organization_id
  pub workflow : job.payload.workflow_id ≡ payload.workflow_id
  pub attempted : 1 ≤ job.payload.attempt
  pub allowed : job.payload.attempt ≤ max_attempts

-- The queue has grown by jobs of this execution alone.
abbrev pub Grows : JobPayload → Store → Store → Type 0
Grows payload s s' =
    (jobs : List QueuedJob) × (s'.queue ≡ s.queue ++ jobs) × All (IsOwn payload) jobs

next_jobs-IsOwn :
    (payload : JobPayload) (clock : Moment → ℕ) (delay : Option Number) (steps : List WorkflowStep)
    (i : ℕ) (ts : List Transition)
    → All (IsOwn payload) (next_jobs (next_job payload clock delay) steps i ts)
unfolding next_jobs next_job
next_jobs-IsOwn payload clock wait steps i [] = tt
next_jobs-IsOwn payload clock wait steps i (t ∷ ts) =
    elim (Option-cases (find (λ p. str_eq p.id t.target_step_id) steps)) [
      | inl missing ↦ rw (missing, next_jobs) (next_jobs-IsOwn payload clock wait steps (i + 1) ts)
      | inr (p, found) ↦
          rw (found, next_jobs)
            (
              record {
                execution = refl;
                tenant = refl;
                organization = refl;
                workflow = refl;
                attempted = omega arith;
                allowed = omega arith;
              },
              next_jobs-IsOwn payload clock wait steps (i + 1) ts,
            )
    ]

abort-Grows :
    (clock : Moment → ℕ) (payload : JobPayload) (message : String) (s : Store)
    → Grows payload s (abort clock payload message s)
unfolding abort update_execution
abort-Grows clock payload message s = ([], sym (append-nil s.queue), tt)

succeed-Grows :
    (host : Host) (clock : Moment → ℕ) (execution : Execution) (workflow : Workflow)
    (step : WorkflowStep) (payload : JobPayload) (output : Value) (s : Store)
    → Grows payload s (succeed host clock execution workflow step payload output s)
unfolding succeed update_execution
succeed-Grows host clock execution workflow step payload output s =
    let next = followed step output false workflow.transitions in
    let jobs =
      next_jobs (next_job payload clock (some (delay_of host step output))) workflow.steps 0 next in
    elim (Bool-cases (length next == 0)) [
      | inl last ↦ rw (last, succeed) ([], sym (append-nil s.queue), tt)
      | inr more ↦
          rw (more, succeed)
            (add_jobs-queue (IsOwn payload) jobs
              (update_execution payload.execution_id (λ e. record e { depth = execution.depth + 1 })
                s)
              (next_jobs-IsOwn payload clock _ workflow.steps 0 next))
    ]

fail-Grows :
    (clock : Moment → ℕ) (execution : Execution) (workflow : Workflow) (step : WorkflowStep)
    (payload : JobPayload) (thrown : Option String) (s : Store)
    → Grows payload s (fail clock execution workflow step payload thrown s)
unfolding fail update_execution retry_job
fail-Grows clock execution workflow step payload thrown s =
    let fallbacks = followed step null true workflow.transitions in
    let jobs = next_jobs (next_job payload clock none) workflow.steps 0 fallbacks in
    elim (Bool-cases (ltb payload.attempt max_attempts)) [
      | inl again ↦
          let own : IsOwn payload (retry_job payload) = record {
            execution = refl;
            tenant = refl;
            organization = refl;
            workflow = refl;
            attempted = omega arith;
            allowed = ground arith;
          } in
          rw (again, fail) (add_jobs-queue (IsOwn payload) (retry_job payload ∷ []) s (own, tt))
      | inr enough ↦ elim (Bool-cases (continues step.on_error && ltb 0 (length fallbacks))) [
        | inl onward ↦
            rw (enough, onward, fail)
              (add_jobs-queue (IsOwn payload) jobs s
                (next_jobs-IsOwn payload clock none workflow.steps 0 fallbacks))
        | inr stop ↦ rw (enough, stop, fail) ([], sym (append-nil s.queue), tt)
      ]
    ]

shift :
    (payload : JobPayload) (s s' s'' : Store)
    → SameRest s s'
    → Grows payload s' s''
    → Grows payload s s''
shift payload s s' s'' e (jobs, q, own) = (jobs, rw (← e.queue) q, own)

-- Whatever happens, a run of a job adds jobs only behind the queue, all of the same execution,
-- workflow, tenant and organization, and none with more than five attempts.
pub process_execution_job-Grows :
    (host : Host) (clock : Moment → ℕ) (payload : JobPayload) (s : Store)
    → Grows payload s (process_execution_job host clock payload s).0
process_execution_job-Grows host clock payload s =
    process_cases (Grows payload s) host clock payload s ([], sym (append-nil s.queue), tt)
      (λ message. abort-Grows clock payload message s)
      (λ execution workflow step tried.
        attempt_step_cases (Grows payload s) host clock payload s execution workflow step
          (λ thrown r e.
            shift payload s r (fail clock execution workflow step payload thrown r) e
              (fail-Grows clock execution workflow step payload thrown r))
          (λ s' e. shift payload s s' s' e ([], sym (append-nil s'.queue), tt))
          (λ value r e.
            shift payload s r (succeed host clock execution workflow step payload value r) e
              (succeed-Grows host clock execution workflow step payload value r)))
