-- ===== src/Workflows/Linked.antt =====
-- The transitions of every saved workflow lead from steps of it to steps of it, so that the worker
-- brings every execution forward.
pub mod Canvas
pub mod Rows
use birthub_360_innovation.Base.{
  ℕ, ◌+◌, ◌<◌, String, Bool, true, false, ◌&&◌, List, [], ◌∷◌, ◌++◌, map, Option, none, some, ◌≡◌,
  refl, sym, ap, ◌∙◌, subst, ◌⊎◌, inl, inr, arith, if◌then◌else◌, is_some, get_or, Bool-cases,
  Option-cases, str_eq, eq_iff, str_eq_refl, find, any, All, Dict, lookup, insert, lookup-insert,
  update_where, All-append, All-update_where, All-find,
}
use birthub_360_innovation.Base.Json.{Value}
use birthub_360_innovation.Runner.Trigger.{is_trigger_type, new_execution, trigger_job}
use birthub_360_innovation.Base.Result.{Result, ok, err, ◌>>=◌, Result-cases}
use birthub_360_innovation.Runner.{
  TriggerType, WorkflowStep, Transition, Workflow, WorkflowStatus, JobPayload, Moment, Execution,
  QueuedJob,
}
use birthub_360_innovation.Runner as Worker
use birthub_360_innovation.Runner.Job.{process_execution_job, is_cancelled}
use birthub_360_innovation.Runner.Linked.{has_step, IsLinked}
use birthub_360_innovation.Runner.Forward.{Forward, HasFreeIds}
use birthub_360_innovation.Runner.Progress.{process_execution_job-Forward}
use birthub_360_innovation.Workflows.{
  Store, Row, CreateInput, UpdateInput, Host, Draw, ServiceError, CanvasTransition, WorkflowCanvas,
}
use birthub_360_innovation.Workflows.Canvas.{
  step_id_by_key, filled, same_transition, persist_steps, persist_transitions, persist_canvas,
}
use birthub_360_innovation.Workflows.Service.{
  created_row, new_row, create_workflow, schedule, upsert_cron_trigger, accept_input,
  resolve_scoped_identity, get_workflow_by_id, is_row, PersistedWorkflow,
}
use birthub_360_innovation.Workflows.Update.{
  drop_results, set_status, apply_update, replace_canvas, updated_row, update_workflow,
  archive_workflow, run_workflow_now, accept_update, runnable, archive as archive_row,
  trigger_payload, enqueue_workflow_execution,
}
use birthub_360_innovation.Workflows.System.{
  Step, create, update, archive, run, trigger, work, remove, Reachable, start, next, worker_store,
  after_worker,
}
use birthub_360_innovation.Workflows.Linked.Rows.{
  RowsLinked, created_row-IsLinked, apply_update-IsLinked, replace_canvas-IsLinked,
  accept_update-IsLinked,
}

-- The schedule is no part of a row.
pub rows-schedule :
    (host : Host) (trigger_type : TriggerType) (row : Row) (s left : Store)
    → schedule host trigger_type row s ≡ ok left
    → left.rows ≡ s.rows
unfolding schedule upsert_cron_trigger
rows-schedule host trigger_type row s left e = ground (arith, e)

create-RowsLinked :
    (host : Host) (draw : Draw) (tenant_reference : String) (input : CreateInput) (s : Store)
    → RowsLinked s
    → RowsLinked (create_workflow host draw tenant_reference input s).0
unfolding create_workflow
create-RowsLinked host draw tenant_reference input s h =
    elim (Result-cases (created_row host draw tenant_reference input s)) [
      | inl (x, bad) ↦ rw (bad, create_workflow) h
      | inr (row, fine) ↦
          let saved : Store = record s { rows = s.rows ++ row ∷ [] } in
          let linked : RowsLinked saved =
            All-append (λ (r : Row). IsLinked r.workflow) s.rows (row ∷ []) h
              (created_row-IsLinked host draw tenant_reference input s row fine, tt) in
          elim (Result-cases (schedule host input.trigger_type row saved)) [
            | inl (x, bad) ↦ rw (fine, bad, create_workflow) linked
            | inr (left, done) ↦
                rw (fine, done, create_workflow)
                  (subst (All (λ (r : Row). IsLinked r.workflow))
                    (sym (rows-schedule host input.trigger_type row saved left done)) linked)
          ]
    ]

update-RowsLinked :
    (host : Host) (draw : Draw) (workflow_id tenant_reference : String) (input : UpdateInput)
    (s : Store)
    → RowsLinked s
    → RowsLinked (update_workflow host draw workflow_id tenant_reference input s).0
unfolding update_workflow updated_row
update-RowsLinked host draw workflow_id tenant_reference input s h =
    elim (Result-cases (accept_update workflow_id tenant_reference input s)) [
      | inl (x, bad) ↦ rw (bad, ◌>>=◌, updated_row, update_workflow) h
      | inr (old, fine) ↦
          let changed = apply_update draw.time input old in
          elim (Result-cases (replace_canvas draw.step_id input.canvas changed)) [
            | inl (x, bad) ↦ rw (fine, ◌>>=◌, bad, updated_row, update_workflow) h
            | inr (row, made) ↦
                let linked : IsLinked row.workflow =
                  replace_canvas-IsLinked draw.step_id input.canvas changed row
                    (apply_update-IsLinked draw.time input old
                      (accept_update-IsLinked workflow_id tenant_reference input s old h fine))
                    made in
                let saved : Store = record s {
                  rows = update_where (λ r. str_eq r.workflow.id workflow_id) (λ r. row) s.rows;
                  results = drop_results input.canvas old s.results;
                } in
                let kept : RowsLinked saved =
                  All-update_where (λ (r : Row). IsLinked r.workflow)
                    (λ r. str_eq r.workflow.id workflow_id) (λ r. row) s.rows (λ r old. linked) h in
                let kind = get_or input.trigger_type old.trigger_type in
                elim (Result-cases (schedule host kind row saved)) [
                  | inl (x, bad) ↦ rw (fine, ◌>>=◌, made, bad, updated_row, update_workflow) kept
                  | inr (left, done) ↦
                      rw (fine, ◌>>=◌, made, done, updated_row, update_workflow)
                        (subst (All (λ (r : Row). IsLinked r.workflow))
                          (sym (rows-schedule host kind row saved left done)) kept)
                ]
          ]
    ]

archive-RowsLinked :
    (time : ℕ) (workflow_id tenant_reference : String) (s s' : Store)
    → archive_workflow time workflow_id tenant_reference s ≡ ok s'
    → RowsLinked s
    → RowsLinked s'
unfolding archive_workflow
archive-RowsLinked time workflow_id tenant_reference s s' e h =
    elim (Result-cases (resolve_scoped_identity tenant_reference s)) [
      | inl (x, bad) ↦ absurd (cc (rw (bad, archive_workflow) at e))
      | inr (identity, known) ↦
          let same : update_where (is_row workflow_id identity.tenant_id) (archive_row time) s.rows
              ≡ s'.rows =
            ground (arith, e, known) in
          subst (All (λ (r : Row). IsLinked r.workflow)) same (
            All-update_where (λ (r : Row). IsLinked r.workflow)
              (is_row workflow_id identity.tenant_id) (archive_row time) s.rows (λ r k. k) h)
    ]

rows-enqueue : (job : QueuedJob) (s : Store) → (enqueue_workflow_execution job s).rows ≡ s.rows
unfolding enqueue_workflow_execution
rows-enqueue job s = ground arith

run-RowsLinked :
    (draw : Draw) (workflow_id tenant_reference : String) (payload : Value)
    (trigger_type : TriggerType) (s : Store)
    → RowsLinked s
    → RowsLinked (run_workflow_now draw workflow_id tenant_reference payload trigger_type s).0
unfolding run_workflow_now
run-RowsLinked draw workflow_id tenant_reference payload trigger_type s h =
    elim (Result-cases (runnable workflow_id tenant_reference s)) [
      | inl (x, bad) ↦ rw (bad, run_workflow_now) h
      | inr (row, fine) ↦
          let given = trigger_payload payload trigger_type row in
          let begun : Store = record s {
            executions =
                s.executions ++ new_execution draw.row_id draw.time given row.workflow ∷ [];
          } in
          elim (Option-cases
            (find (λ (p : WorkflowStep). is_trigger_type p.type) row.workflow.steps)) [
              | inl no_step ↦ rw (fine, no_step, run_workflow_now) h
              | inr (step, found) ↦
                  rw (fine, found, run_workflow_now)
                    (subst (All (λ (r : Row). IsLinked r.workflow))
                      (sym (rows-enqueue (trigger_job draw.row_id given step) begun)) h)
            ]
    ]

-- In every state that the service and the worker can reach together, each end of each transition of each
-- workflow is a step of that workflow.
pub Reachable-RowsLinked : (s : Store) → Reachable s → RowsLinked s
unfolding after_worker
Reachable-RowsLinked _ (start organizations) = tt
Reachable-RowsLinked _ (next {s} r (create host draw reference input)) =
    create-RowsLinked host draw reference input s (Reachable-RowsLinked s r)
Reachable-RowsLinked _ (next {s} r (update host draw id reference input)) =
    update-RowsLinked host draw id reference input s (Reachable-RowsLinked s r)
Reachable-RowsLinked _ (next {s} r (archive time id reference s' e)) =
    archive-RowsLinked time id reference s s' e (Reachable-RowsLinked s r)
Reachable-RowsLinked _ (next {s} r (run draw id reference payload kind)) =
    run-RowsLinked draw id reference payload kind s (Reachable-RowsLinked s r)
Reachable-RowsLinked _ (next {s} r (trigger id started_at completed_at payload)) =
    Reachable-RowsLinked s r
Reachable-RowsLinked _ (next {s} r (work host clock payload)) = Reachable-RowsLinked s r
Reachable-RowsLinked _ (next {s} r (remove keeps)) = Reachable-RowsLinked s r

worker-IsLinked :
    (rows : List Row)
    → All (λ r. IsLinked r.workflow) rows
    → All IsLinked (map (λ r. r.workflow) rows)
worker-IsLinked [] h = tt
worker-IsLinked (r ∷ rs) h = (h.0, worker-IsLinked rs h.1)

-- In every state that the service and the worker can reach together: if the queue holds no id that the
-- worker's handler may choose for a job, and the handler returns on a job of an execution that is there
-- and not cancelled, then a job was added to the queue, or the execution has ended.
pub work-Forward :
    (host : Worker.Host) (clock : Moment → ℕ) (payload : JobPayload) (s : Store)
    (execution : Execution)
    → Reachable s
    → HasFreeIds clock payload s.held
    → find (λ e. str_eq e.id payload.execution_id) s.executions ≡ some execution
    → is_cancelled execution.status ≡ false
    → (process_execution_job host clock payload (worker_store s)).1 ≡ true
    → Forward payload.execution_id
        (worker_store s)
        (process_execution_job host clock payload (worker_store s)).0
unfolding worker_store
work-Forward host clock payload s execution r free found live returned =
    process_execution_job-Forward host clock payload (worker_store s) execution
      (worker-IsLinked s.rows (Reachable-RowsLinked s r)) free found live returned
