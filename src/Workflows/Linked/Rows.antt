-- ===== src/Workflows/Linked/Rows.antt =====
-- The rows that are created and changed are linked.
use birthub_360_innovation.Base.{
  ℕ, String, Option, none, some, ◌≡◌, subst, inl, inr, arith, Option-cases, find, All, All-find,
}
use birthub_360_innovation.Base.Result.{ok, ◌>>=◌, Result-cases}
use birthub_360_innovation.Runner.{WorkflowStatus}
use birthub_360_innovation.Runner.Linked.{IsLinked}
use birthub_360_innovation.Workflows.{
  Store, Row, CreateInput, UpdateInput, Host, Draw, WorkflowCanvas,
}
use birthub_360_innovation.Workflows.Canvas.{persist_canvas}
use birthub_360_innovation.Workflows.Service.{
  created_row, new_row, accept_input, resolve_scoped_identity, get_workflow_by_id, is_row,
  PersistedWorkflow,
}
use birthub_360_innovation.Workflows.Update.{
  set_status, apply_update, replace_canvas, accept_update,
}
use birthub_360_innovation.Workflows.Linked.Canvas.{AreLinked, persist_canvas-AreLinked}

abbrev pub RowsLinked : Store → Type 0
RowsLinked s = All (λ r. IsLinked r.workflow) s.rows

pub created_row-IsLinked :
    (host : Host) (draw : Draw) (tenant_reference : String) (input : CreateInput) (s : Store)
    (row : Row)
    → created_row host draw tenant_reference input s ≡ ok row
    → IsLinked row.workflow
unfolding created_row new_row
created_row-IsLinked host draw tenant_reference input s row e =
    elim (Result-cases (accept_input host draw tenant_reference input s)) [
      | inl (x, bad) ↦ absurd (cc (rw (bad, created_row) at e))
      | inr (identity, fine) ↦ elim (Result-cases (persist_canvas draw.step_id input.canvas)) [
        | inl (x, bad) ↦ absurd (cc (rw (fine, bad, created_row) at e))
        | inr (made, canvas) ↦
            let same : new_row host draw identity input made.0 made.1 ≡ row =
              cc (rw (fine, canvas, created_row) at e) in
            subst (λ r. IsLinked r.workflow) same
              (persist_canvas-AreLinked draw.step_id input.canvas made canvas)
      ]
    ]

pub apply_update-IsLinked :
    (time : ℕ) (input : UpdateInput) (r : Row)
    → IsLinked r.workflow
    → IsLinked (apply_update time input r).workflow
unfolding apply_update set_status
apply_update-IsLinked time input r h = go input.status
  where
    go :
        (status : Option WorkflowStatus)
        → AreLinked
            (set_status time status r).workflow.steps
            (set_status time status r).workflow.transitions
    go none = h
    go (some WorkflowStatus.archived) = h
    go (some WorkflowStatus.published) = h
    go (some WorkflowStatus.draft) = h

pub replace_canvas-IsLinked :
    (step_id : ℕ → String) (canvas : Option WorkflowCanvas) (r left : Row)
    → IsLinked r.workflow
    → replace_canvas step_id canvas r ≡ ok left
    → IsLinked left.workflow
unfolding replace_canvas
replace_canvas-IsLinked step_id none r left h e =
    let same : r ≡ left = cc e in subst (λ x. IsLinked x.workflow) same h
replace_canvas-IsLinked step_id (some canvas) r left h e =
    elim (Result-cases (persist_canvas step_id canvas)) [
      | inl (x, bad) ↦ absurd (cc (rw (bad, replace_canvas) at e))
      | inr (made, fine) ↦
          let same : record r {
            workflow = record (r.workflow) { steps = made.0; transitions = made.1 };
          }
              ≡ left =
            cc (rw (fine, replace_canvas) at e) in
          subst (λ x. IsLinked x.workflow) same (persist_canvas-AreLinked step_id canvas made fine)
    ]

find-get_workflow_by_id :
    (workflow_id tenant_id : String) (s : Store) (p : PersistedWorkflow)
    → get_workflow_by_id workflow_id tenant_id s ≡ some p
    → find (is_row workflow_id tenant_id) s.rows ≡ some p.row
unfolding get_workflow_by_id
find-get_workflow_by_id workflow_id tenant_id s p e = ground (arith, e)

-- The row that an update begins with, or a run, is a row of the table.
pub accept_update-IsLinked :
    (workflow_id tenant_reference : String) (input : UpdateInput) (s : Store) (row : Row)
    → RowsLinked s
    → accept_update workflow_id tenant_reference input s ≡ ok row
    → IsLinked row.workflow
unfolding accept_update
accept_update-IsLinked workflow_id tenant_reference input s row h e =
    elim (Result-cases (resolve_scoped_identity tenant_reference s)) [
      | inl (x, bad) ↦ absurd (cc (rw (bad, accept_update) at e))
      | inr (identity, known) ↦
          elim (Option-cases (get_workflow_by_id workflow_id identity.tenant_id s)) [
            | inl missing ↦ absurd (cc (rw (known, ◌>>=◌, missing, accept_update) at e))
            | inr (p, got) ↦
                let same : p.row ≡ row = ground (arith, e, known, got) in
                subst (λ x. IsLinked x.workflow) same
                  (All-find (λ (x : Row). IsLinked x.workflow) _ s.rows p.row h
                    (find-get_workflow_by_id workflow_id identity.tenant_id s p got))
          ]
    ]
