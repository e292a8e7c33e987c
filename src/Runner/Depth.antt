-- ===== src/Runner/Depth.antt =====
-- The depth of an execution.
use birthub_360_innovation.Base.{
  ℕ, ◌+◌, ◌≤◌, String, Bool, true, false, ◌&&◌, List, [], ◌∷◌, map, Option, some, ◌≡◌, subst, inl,
  inr, arith, ltb, ◌==◌, if◌then◌else◌, Bool-cases, str_eq, length, find, All,
}
use birthub_360_innovation.Base.Json.{Value, null}
use birthub_360_innovation.Runner.{
  Store, Execution, Workflow, WorkflowStep, JobPayload, Host, Moment, update_execution,
  max_attempts,
}
use birthub_360_innovation.Runner.Retry.{followed, succeed, fail, continues}
use birthub_360_innovation.Runner.Queue.{add_jobs-executions}
use birthub_360_innovation.Runner.Job.{abort, process_execution_job}
use birthub_360_innovation.Runner.Cases.{process_cases, attempt_step_cases}

abbrev pub DepthWithin : ℕ → List Execution → Type 0
DepthWithin d es = All (λ e. e.depth ≤ d) es

abbrev pub LimitsWithin : ℕ → List Workflow → Type 0
LimitsWithin d ws = All (λ w. w.max_depth ≤ d) ws

limit-le :
    (d : ℕ) (p : Workflow → Bool) (ws : List Workflow) (w : Workflow)
    → LimitsWithin d ws
    → find p ws ≡ some w
    → w.max_depth ≤ d
limit-le d p [] w h e = cc
limit-le d p (x ∷ ws) w h e = elim (Bool-cases (p x)) [
  | inl here ↦
      let q : some x ≡ some w = rw (here) at e in
      let same : x ≡ w = cc q in subst (λ y. y.max_depth ≤ d) same h.0
  | inr later ↦ limit-le d p ws w h.1 (rw (later) at e)
]

update-DepthWithin :
    (d : ℕ) (id : String) (change : Execution → Execution) (s : Store)
    → ((e : Execution) → e.depth ≤ d → (change e).depth ≤ d)
    → DepthWithin d s.executions
    → DepthWithin d (update_execution id change s).executions
unfolding update_execution
update-DepthWithin d id change s keep h = go s.executions h
  where
    go :
        (es : List Execution)
        → DepthWithin d es
        → DepthWithin d (map (λ e. if str_eq e.id id then change e else e) es)
    go [] h = tt
    go (e ∷ es) h = (ground (arith, keep e), go es h.1)

module _ (d : ℕ) (clock : Moment → ℕ) (execution : Execution) (workflow : Workflow)
    (step : WorkflowStep) (payload : JobPayload) (s : Store) (h : DepthWithin d s.executions) where
  succeed-DepthWithin :
      (host : Host) (value : Value)
      → execution.depth + 1 ≤ d
      → DepthWithin d (succeed host clock execution workflow step payload value s).executions
  unfolding succeed
  succeed-DepthWithin host value room =
      let deeper =
        update-DepthWithin d payload.execution_id (λ e. record e { depth = execution.depth + 1 }) s
          (λ e k. room) h in
      elim (Bool-cases (length (followed step value false workflow.transitions) == 0)) [
        | inl last ↦
            rw (last, succeed) (update-DepthWithin d payload.execution_id _ _ (λ e k. k) deeper)
        | inr more ↦ rw (more, succeed, add_jobs-executions) deeper
      ]

  fail-DepthWithin :
      (thrown : Option String)
      → DepthWithin d (fail clock execution workflow step payload thrown s).executions
  unfolding fail
  fail-DepthWithin thrown = elim (Bool-cases (ltb payload.attempt max_attempts)) [
    | inl again ↦ rw (again, fail, add_jobs-executions) h
    | inr enough ↦
        elim (Bool-cases (
          continues step.on_error
          && ltb 0 (length (followed step null true workflow.transitions)))) [
            | inl onward ↦ rw (enough, onward, fail, add_jobs-executions) h
            | inr stop ↦
                rw (enough, stop, fail) (update-DepthWithin d payload.execution_id _ s (λ e k. k) h)
          ]
  ]

-- If the depth of every execution is within a limit, which is at least 1 and no less than the limit of
-- any workflow, then so it is after any job.
pub process_execution_job-DepthWithin :
    (host : Host) (clock : Moment → ℕ) (payload : JobPayload) (s : Store) (d : ℕ)
    → 1 ≤ d
    → LimitsWithin d s.workflows
    → DepthWithin d s.executions
    → DepthWithin d (process_execution_job host clock payload s).0.executions
unfolding abort
process_execution_job-DepthWithin host clock payload s d one limits h =
    process_cases (λ s'. DepthWithin d s'.executions) host clock payload s h
      (λ message. update-DepthWithin d payload.execution_id _ s (λ e k. k) h)
      (λ execution workflow step tried.
        attempt_step_cases (λ s'. DepthWithin d s'.executions) host clock payload s execution
          workflow step
          (λ thrown r e.
            fail-DepthWithin d clock execution workflow step payload r (rw e.executions h) thrown)
          (λ s' e. rw e.executions h)
          (λ value r e.
            succeed-DepthWithin d clock execution workflow step payload r (rw e.executions h) host
              value
              (omega (
                arith,
                tried.shallow,
                limit-le d _ s.workflows workflow limits tried.found_workflow,
              ))))
