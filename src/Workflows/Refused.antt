-- ===== src/Workflows/Refused.antt =====
-- What `createWorkflow` throws, and what it leaves then.
use birthub_360_innovation.Base.{
  ℕ, String, true, false, [], ◌∷◌, ◌++◌, some, ◌≡◌, refl, sym, ap, ◌∙◌, ◌⊎◌, inl, inr, arith,
  is_some, Option-cases, Bool-cases, str_eq, str_eq_refl, find-append,
}
use birthub_360_innovation.Base.Result.{ok, err, ◌>>=◌, Result-cases}
use birthub_360_innovation.Auth.{Organization}
use birthub_360_innovation.Dag.{DagResult}
use birthub_360_innovation.Runner.{TriggerType}
use birthub_360_innovation.Workflows.{
  Store, Row, Host, Draw, CreateInput, ServiceError, duplicate_transition, invalid_cron,
}
use birthub_360_innovation.Workflows.Canvas.{persist_canvas, ensure_canvas_is_dag}
use birthub_360_innovation.Workflows.Complete.{persist_canvas-err}
use birthub_360_innovation.Workflows.Service.{
  accept_input, created_row, new_row, create_workflow, get_workflow_by_id, is_row, schedule,
  upsert_cron_trigger, is_cron,
}
use birthub_360_innovation.Workflows.Linked.{rows-schedule}

-- The new row is found again.
get_workflow_by_id-created :
    (row : Row) (s left : Store)
    → left.rows ≡ s.rows ++ row ∷ []
    → is_some (get_workflow_by_id row.workflow.id row.workflow.tenant_id left) ≡ true
unfolding get_workflow_by_id
get_workflow_by_id-created row s left same = ground (
  arith,
  same,
  find-append (is_row row.workflow.id row.workflow.tenant_id) s.rows (row ∷ []),
  str_eq_refl row.workflow.id,
  str_eq_refl row.workflow.tenant_id,
)

-- The schedule that the queue refuses: that of a workflow started by time, with a pattern that is none.
abbrev pub IsRefused : Host → TriggerType → Row → Type 0
IsRefused host trigger_type row =
    (is_cron trigger_type ≡ true)
    × (cron : String) × (row.cron_expression ≡ some cron)
    × (host.accepts_cron cron ≡ false)

schedule-err :
    (host : Host) (trigger_type : TriggerType) (row : Row) (s : Store) (e : ServiceError)
    → schedule host trigger_type row s ≡ err e
    → (e ≡ invalid_cron) × IsRefused host trigger_type row
unfolding schedule upsert_cron_trigger
schedule-err host trigger_type row s e bad = elim (Bool-cases (is_cron trigger_type)) [
  | inr other ↦ absurd (cc (rw (other, schedule) at bad))
  | inl timed ↦
      let refused = rw (timed, schedule) at bad in
      elim (Option-cases row.cron_expression) [
        | inl missing ↦ absurd (cc (rw (missing, upsert_cron_trigger) at refused))
        | inr (cron, given) ↦ elim (Bool-cases (str_eq cron "")) [
          | inl blank ↦ absurd (cc (rw (given, blank, upsert_cron_trigger) at refused))
          | inr text ↦ elim (Bool-cases (host.accepts_cron cron)) [
            | inl fine ↦ absurd (cc (rw (given, text, fine, upsert_cron_trigger) at refused))
            | inr wrong ↦
                let q : err invalid_cron ≡ err e =
                  rw (given, text, wrong, upsert_cron_trigger) at refused in
                (cc q, (timed, cron, given, wrong))
          ]
        ]
      ]
]

accept_input-ok :
    (host : Host) (draw : Draw) (reference : String) (input : CreateInput) (s : Store)
    (identity : Organization)
    → accept_input host draw reference input s ≡ ok identity
    → (r : DagResult) × (ensure_canvas_is_dag input.canvas ≡ ok r)
unfolding accept_input
accept_input-ok host draw reference input s identity h =
    elim (Result-cases (ensure_canvas_is_dag input.canvas)) [
      | inl (x, bad) ↦ ground (arith, h, bad)
      | inr (r, valid) ↦ (r, valid)
    ]

-- If no new step has the empty id and `createWorkflow` throws, then one of its checks threw (on the
-- organization, the limit of the plan, the graph, the first step, the name), or the canvas has the same
-- transition twice, and the store is as it was; or the workflow is started by time and the queue refuses
-- its pattern, and the workflow is saved all the same.
pub create_workflow-err :
    (host : Host) (draw : Draw) (tenant_reference : String) (input : CreateInput) (s s' : Store)
    (e : ServiceError)
    → ((i : ℕ) → str_eq (draw.step_id i) "" ≡ false)
    → create_workflow host draw tenant_reference input s ≡ (s', err e)
    → ((s' ≡ s)
        × ((accept_input host draw tenant_reference input s ≡ err e) ⊎ (e ≡ duplicate_transition)))
      ⊎ ((e ≡ invalid_cron)
          × (row : Row) × (created_row host draw tenant_reference input s ≡ ok row)
          × IsRefused host input.trigger_type row
          × (s' ≡ record s { rows = s.rows ++ row ∷ [] }))
unfolding create_workflow created_row
create_workflow-err host draw tenant_reference input s s' e fresh thrown =
    elim (Result-cases (accept_input host draw tenant_reference input s)) [
      | inl (x, bad) ↦
          let q : (s, err x) ≡ (s', err e) =
            rw (bad, ◌>>=◌, created_row, create_workflow) at thrown in
          let same : x ≡ e = cc (ap (λ z. z.1) q) in
          inl (sym (ap (λ z. z.0) q), inl (bad ∙ ap err same))
      | inr (identity, fine) ↦ elim (Result-cases (persist_canvas draw.step_id input.canvas)) [
        | inl (x, bad) ↦
            let q : (s, err x) ≡ (s', err e) =
              rw (fine, ◌>>=◌, bad, created_row, create_workflow) at thrown in
            let same : x ≡ e = cc (ap (λ z. z.1) q) in
            let (r, valid) = accept_input-ok host draw tenant_reference input s identity fine in
            inl (
              sym (ap (λ z. z.0) q),
              inr (sym same ∙ persist_canvas-err draw.step_id input.canvas r x fresh valid bad),
            )
        | inr (made, drawn) ↦
            let row = new_row host draw identity input made.0 made.1 in
            let saved : Store = record s { rows = s.rows ++ row ∷ [] } in
            let is_row : created_row host draw tenant_reference input s ≡ ok row =
              rw (fine, ◌>>=◌, drawn, created_row) refl in
            elim (Result-cases (schedule host input.trigger_type row saved)) [
              | inl (x, bad) ↦
                  let q : (saved, err x) ≡ (s', err e) =
                    rw (is_row, bad, create_workflow) at thrown in
                  let same : x ≡ e = cc (ap (λ z. z.1) q) in
                  let (which, refused) = schedule-err host input.trigger_type row saved x bad in
                  inr (sym same ∙ which, row, is_row, refused, sym (ap (λ z. z.0) q))
              | inr (left, done) ↦
                  let found =
                    get_workflow_by_id-created row s left
                      (rows-schedule host input.trigger_type row saved left done) in
                  elim (Option-cases
                    (get_workflow_by_id row.workflow.id row.workflow.tenant_id left)) [
                      | inl missing ↦ absurd (cc (ap is_some missing, found))
                      | inr (p, got) ↦
                          let q = rw (is_row, done, create_workflow, got) at thrown in
                          absurd (cc (ap (λ z. z.1) q))
                    ]
            ]
      ]
    ]
