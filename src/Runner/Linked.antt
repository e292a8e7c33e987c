-- ===== src/Runner/Linked.antt =====
-- Workflows whose transitions lead from steps to steps, and executions that are begun or over.
use birthub_360_innovation.Base.{
  ℕ, ◌<◌, String, Bool, true, false, List, [], ◌∷◌, none, some, ◌≡◌, inl, inr, arith, ◌==◌, is_some,
  Option-cases, str_eq, length, find, All, find-update_where, find-passes, change_found,
  update_where, ap, ◌∙◌,
}
use birthub_360_innovation.Runner.{
  Store, Execution, ExecutionStatus, Workflow, WorkflowStep, Transition, QueuedJob,
  update_execution,
}
use birthub_360_innovation.Runner.Retry.{next_jobs}

abbrev pub has_step : String → List WorkflowStep → Bool
has_step id steps = is_some (find (λ p. str_eq p.id id) steps)

-- Each end of each transition is a step of the workflow.
abbrev pub IsLinked : Workflow → Type 0
IsLinked w =
    All
      (λ t. (has_step t.source_step_id w.steps ≡ true) × (has_step t.target_step_id w.steps ≡ true))
      w.transitions

-- Success or failure.
abbrev pub is_ended : ExecutionStatus → Bool
is_ended ExecutionStatus.success = true
is_ended ExecutionStatus.failed = true
is_ended _ = false

abbrev pub is_over : String → List Execution → Bool
is_over id es = elim (find (λ e. str_eq e.id id) es) [ none ↦ false | some e ↦ is_ended e.status ]

-- The execution is among those of the list.
abbrev pub is_begun : String → List Execution → Bool
is_begun id es = is_some (find (λ e. str_eq e.id id) es)

find-update :
    (id : String) (change : Execution → Execution) (s : Store)
    → ((e : Execution) → (change e).id ≡ e.id)
    → find (λ e. str_eq e.id id) (update_execution id change s).executions
      ≡ change_found (λ e. str_eq e.id id) change (find (λ e. str_eq e.id id) s.executions)
unfolding update_execution update_where
find-update id change s keep =
    find-update_where (λ e. str_eq e.id id) (λ e. str_eq e.id id) change
      (λ e. ap (λ x. str_eq x id) (keep e)) s.executions

pub is_begun-update :
    (id : String) (change : Execution → Execution) (s : Store)
    → ((e : Execution) → (change e).id ≡ e.id)
    → is_begun id (update_execution id change s).executions ≡ is_begun id s.executions
is_begun-update id change s keep = rw (find-update id change s keep) (ground arith)

pub is_over-update :
    (id : String) (change : Execution → Execution) (s : Store)
    → ((e : Execution) → (change e).id ≡ e.id)
    → ((e : Execution) → is_ended (change e).status ≡ true)
    → is_begun id s.executions ≡ true
    → is_over id (update_execution id change s).executions ≡ true
is_over-update id change s keep ends begun =
    elim (Option-cases (find (λ e. str_eq e.id id) s.executions)) [
      | inl missing ↦ cc (ap is_some missing, begun)
      | inr (x, found) ↦
          let after : find (λ e. str_eq e.id id) (update_execution id change s).executions
              ≡ some (change x) =
            find-update id change s keep
            ∙ rw (found, find-passes (λ (e : Execution). str_eq e.id id) s.executions x found) in
          rw (after, is_over) (ends x)
    ]

pub next_jobs-some :
    (job : ℕ → WorkflowStep → QueuedJob) (steps : List WorkflowStep) (ts : List Transition) (i : ℕ)
    → All
        (λ t. (has_step t.source_step_id steps ≡ true) × (has_step t.target_step_id steps ≡ true))
        ts
    → (length ts == 0) ≡ false
    → 0 < length (next_jobs job steps i ts)
unfolding next_jobs
next_jobs-some job steps [] i h some_ts = cc
next_jobs-some job steps (t ∷ ts) i h some_ts =
    elim (Option-cases (find (λ p. str_eq p.id t.target_step_id) steps)) [
      | inl missing ↦ cc (ap is_some missing, h.0.1)
      | inr (next, found) ↦ rw (found, next_jobs) (omega arith)
    ]
