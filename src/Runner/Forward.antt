-- ===== src/Runner/Forward.antt =====
-- What the end of a step brings forward: the jobs that follow it, or the end of the execution.
use birthub_360_innovation.Base.{
  ℕ, ◌+◌, ◌<◌, String, Bool, true, false, ◌&&◌, List, Option, some, ◌≡◌, refl, ◌⊎◌, inl, inr, arith,
  ltb, ◌==◌, Bool-cases, Option-cases, str_eq, length, find, any, [], ◌∷◌, none, subst, All-filter,
  ◌∙◌,
}
use birthub_360_innovation.Base.Int.{sub_ℕ, Number}
use birthub_360_innovation.Base.Json.{Value, null}
use birthub_360_innovation.Runner.{
  Store, Execution, ExecutionStatus, Workflow, WorkflowStep, JobPayload, Host, Moment, Transition,
  update_execution, add_jobs, max_attempts, completed, duration,
}
use birthub_360_innovation.Runner.Retry.{
  next_id, next_job, next_jobs, retry_job, delay_of, followed, succeed, fail, continues,
}
use birthub_360_innovation.Runner.Queue.{AreFree, add_jobs-longer}
use birthub_360_innovation.Runner.Linked.{
  has_step, IsLinked, is_over, is_begun, is_begun-update, is_over-update, next_jobs-some,
}

-- A job was added, or the execution has ended.
abbrev pub Forward : String → Store → Store → Type 0
Forward id s s' = (length s.queue < length s'.queue) ⊎ (is_over id s'.executions ≡ true)

-- The queue holds no job under an id that the run of a job may choose: that of the retry, and those of
-- steps behind it.
pub record HasFreeIds (clock : Moment → ℕ) (payload : JobPayload) (held : List String)
    : Type 0 where
  pub retry : any (str_eq (retry_job payload).job_id) held ≡ false
  pub behind : (i : ℕ) (key : String) → any (str_eq (next_id payload clock i key)) held ≡ false

next_jobs-AreFree :
    (clock : Moment → ℕ) (payload : JobPayload) (held : List String) (delay : Option Number)
    (steps : List WorkflowStep) (i : ℕ) (ts : List Transition)
    → HasFreeIds clock payload held
    → AreFree held (next_jobs (next_job payload clock delay) steps i ts)
unfolding next_jobs next_job
next_jobs-AreFree clock payload held wait steps i [] free = tt
next_jobs-AreFree clock payload held wait steps i (t ∷ ts) free =
    elim (Option-cases (find (λ p. str_eq p.id t.target_step_id) steps)) [
      | inl missing ↦
          rw (missing, next_jobs) (next_jobs-AreFree clock payload held wait steps (i + 1) ts free)
      | inr (p, found) ↦
          rw (found, next_jobs)
            (free.behind i p.key, next_jobs-AreFree clock payload held wait steps (i + 1) ts free)
    ]

module _ (clock : Moment → ℕ) (execution : Execution) (workflow : Workflow) (step : WorkflowStep)
    (payload : JobPayload) (s : Store) (linked : IsLinked workflow)
    (begun : is_begun payload.execution_id s.executions ≡ true)
    (free : HasFreeIds clock payload s.held) where
  -- The jobs behind the followed transitions, of which there are some.
  onward :
      (wait : Option Number) (output : Value) (failed : Bool) (s' : Store)
      → s'.held ≡ s.held
      → s'.queue ≡ s.queue
      → (length (followed step output failed workflow.transitions) == 0) ≡ false
      → length s.queue
        < length
            (add_jobs
              (next_jobs
                (next_job payload clock wait)
                workflow.steps
                0
                (followed step output failed workflow.transitions))
              s').queue
  unfolding followed
  onward wait output failed s' same_ids same_queue some_ts =
      let ts = followed step output failed workflow.transitions in
      let jobs = next_jobs (next_job payload clock wait) workflow.steps 0 ts in
      let grown =
        add_jobs-longer jobs s'
          (rw same_ids (next_jobs-AreFree clock payload s.held wait workflow.steps 0 ts free))
          (next_jobs-some (next_job payload clock wait) workflow.steps ts 0
            (All-filter
              (λ t.
                (has_step t.source_step_id workflow.steps ≡ true)
                × (has_step t.target_step_id workflow.steps ≡ true))
              _ workflow.transitions linked)
            some_ts) in
      subst (λ q. length q < length (add_jobs jobs s').queue) same_queue grown

  pub succeed-Forward :
      (host : Host) (output : Value)
      → Forward payload.execution_id s (succeed host clock execution workflow step payload output s)
  unfolding succeed update_execution
  succeed-Forward host output =
      elim (Bool-cases (length (followed step output false workflow.transitions) == 0)) [
        | inl last ↦
            rw (last, succeed)
              (inr (
                is_over-update payload.execution_id
                  (λ e. record e {
                    completed_at = some (clock completed);
                    duration_ms = some (sub_ℕ (clock duration) execution.started_at);
                    status = ExecutionStatus.success;
                  })
                  (update_execution payload.execution_id
                    (λ e. record e { depth = execution.depth + 1 }) s)
                  (λ e. refl) (λ e. refl)
                  (is_begun-update payload.execution_id
                      (λ e. record e { depth = execution.depth + 1 }) s (λ e. refl)
                    ∙ begun)))
        | inr more ↦
            rw (more, succeed)
              (inl (
                onward (some (delay_of host step output)) output false
                  (update_execution payload.execution_id
                    (λ e. record e { depth = execution.depth + 1 }) s)
                  refl refl more))
      ]

  pub fail-Forward :
      (thrown : Option String)
      → Forward payload.execution_id s (fail clock execution workflow step payload thrown s)
  unfolding fail
  fail-Forward thrown = elim (Bool-cases (ltb payload.attempt max_attempts)) [
    | inl again ↦
        rw (again, fail)
          (inl (add_jobs-longer (retry_job payload ∷ []) s (free.retry, tt) (omega arith)))
    | inr spent ↦
        elim (Bool-cases (
          continues step.on_error
          && ltb 0 (length (followed step null true workflow.transitions)))) [
            | inl on ↦
                rw (spent, on, fail) (inl (onward none null true s refl refl (ground (arith, on))))
            | inr off ↦
                rw (spent, off, fail) (inr (is_over-update _ _ _ (λ e. refl) (λ e. refl) begun))
          ]
  ]
