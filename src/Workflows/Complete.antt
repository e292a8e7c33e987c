-- ===== src/Workflows/Complete.antt =====
-- A canvas that is a valid graph can be saved: the errors of `persistCanvas` that are left.
use birthub_360_innovation.Base.{
  ℕ, ◌+◌, ◌≤◌, ◌<◌, String, true, false, List, [], ◌∷◌, ◌++◌, map, some, ◌≡◌, refl, sym, ap, ◌∙◌,
  ◌⊎◌, inl, inr, arith, is_some, Bool-cases, Option-cases, str_eq, str_eq_refl, any, count,
  count-append, All, Dict, lookup, insert, lookup-insert, append-nil, append_assoc,
}
use birthub_360_innovation.Base.Result.{ok, err, ◌>>=◌, Result-cases}
use birthub_360_innovation.Dag.{DagEdge, DagResult}
use birthub_360_innovation.Dag.Graph.{Edge, edge_count}
use birthub_360_innovation.Dag.Build.{node_ids}
use birthub_360_innovation.Dag.Validate.{validate_dag}
use birthub_360_innovation.Dag.Validate.Promises.{validate_dag-once, validate_dag-ends}
use birthub_360_innovation.Runner.{WorkflowStep, Transition}
use birthub_360_innovation.Workflows.{
  WorkflowCanvas, CanvasStep, CanvasTransition, ServiceError, duplicate_transition,
}
use birthub_360_innovation.Workflows.Canvas.{
  dag_input, no_options, ensure_canvas_is_dag, new_step, filled, same_transition, step_id_by_key,
  persist_steps, persist_transitions, persist_canvas,
}

abbrev keys : List WorkflowStep → List String
keys = map (λ p. p.key)

abbrev canvas_keys : List CanvasStep → List String
canvas_keys = map (λ p. p.key)

abbrev AllFilled : List WorkflowStep → Type 0
AllFilled = All (λ p. str_eq p.id "" ≡ false)

any-count :
    (key : String) (made : List WorkflowStep)
    → count key (keys made) ≡ 0
    → any (λ m. str_eq m.key key) made ≡ false
any-count key [] h = refl
any-count key (p ∷ ps) h = ground (arith, any-count key ps)

keys-append : (a b : List WorkflowStep) → keys (a ++ b) ≡ keys a ++ keys b
keys-append [] b = refl
keys-append (p ∷ ps) b = ap (λ l. p.key ∷ l) (keys-append ps b)

abbrev new_steps : (ℕ → String) → ℕ → List CanvasStep → List WorkflowStep
new_steps step_id i [] = []
new_steps step_id i (p ∷ ps) = new_step (step_id i) p ∷ new_steps step_id (i + 1) ps

module _ (step_id : ℕ → String) (fresh : (i : ℕ) → str_eq (step_id i) "" ≡ false) where
  -- With no key twice, a row is made for each step.
  persist_steps_lem :
      (i : ℕ) (ps : List CanvasStep) (made : List WorkflowStep)
      → ((v : String) → count v (keys made) + count v (canvas_keys ps) ≤ 1)
      → persist_steps step_id i ps made ≡ ok (made ++ new_steps step_id i ps)
  unfolding persist_steps new_step
  persist_steps_lem i [] made once = ap ok (sym (append-nil made))
  persist_steps_lem i (p ∷ ps) made once =
      let new = new_step (step_id i) p in
      let free : any (λ m. str_eq m.key p.key) made ≡ false =
        any-count p.key made (ground (arith, once p.key, str_eq_refl p.key)) in
      let rest = persist_steps_lem (i + 1) ps (made ++ new ∷ []) (λ v.
        rw (keys-append made (new ∷ []), count-append v (keys made) (keys (new ∷ [])))
          (ground (arith, once v))) in
      rw (free, persist_steps)
        (rest ∙ ap ok (append_assoc made (new ∷ []) (new_steps step_id (i + 1) ps)))

  new_steps-AllFilled : (i : ℕ) (ps : List CanvasStep) → AllFilled (new_steps step_id i ps)
  unfolding new_step
  new_steps-AllFilled i [] = tt
  new_steps-AllFilled i (p ∷ ps) = (fresh i, new_steps-AllFilled (i + 1) ps)

  keys-new_steps : (i : ℕ) (ps : List CanvasStep) → keys (new_steps step_id i ps) ≡ canvas_keys ps
  unfolding new_step
  keys-new_steps i [] = refl
  keys-new_steps i (p ∷ ps) = ap (λ l. p.key ∷ l) (keys-new_steps (i + 1) ps)

-- Each key of a step has an id in the map.
lookup-filled :
    (steps : List WorkflowStep) (m : Dict String) (key : String)
    → AllFilled steps
    → (0 < count key (keys steps)) ⊎ (is_some (filled (lookup key m)) ≡ true)
    → is_some (filled (lookup key (step_id_by_key steps m))) ≡ true
unfolding step_id_by_key
lookup-filled [] m key h (inl there) = absurd (omega (arith, there))
lookup-filled [] m key h (inr known) = known
lookup-filled (p ∷ ps) m key h which =
    lookup-filled ps (insert p.key p.id m) key h.1 (elim (Bool-cases (str_eq p.key key)) [
      | inl same ↦ inr (rw (lookup-insert p.key key p.id m, same, h.0) refl)
      | inr other ↦ elim which [
        | inl there ↦ inl (ground (arith, there, other))
        | inr known ↦ inr (rw (lookup-insert p.key key p.id m, other) known)
      ]
    ])

-- Where each end has an id, only a transition that is there already is refused.
persist_transitions-err :
    (ids : Dict String) (ts : List CanvasTransition) (made : List Transition) (e : ServiceError)
    → All
        (λ t.
          (is_some (filled (lookup t.source ids)) ≡ true)
          × (is_some (filled (lookup t.target ids)) ≡ true))
        ts
    → persist_transitions ids ts made ≡ err e
    → e ≡ duplicate_transition
unfolding persist_transitions
persist_transitions-err ids [] made e h k = absurd (cc k)
persist_transitions-err ids (t ∷ ts) made e h k =
    elim (Option-cases (filled (lookup t.source ids))) [
      | inl missing ↦ absurd (cc (ap is_some missing, h.0.0))
      | inr (source, from) ↦ elim (Option-cases (filled (lookup t.target ids))) [
        | inl missing ↦ absurd (cc (ap is_some missing, h.0.1))
        | inr (target, to) ↦
            let new : Transition = record {
              source_step_id = source;
              target_step_id = target;
              route = t.route;
            } in
            elim (Bool-cases (any (same_transition new) made)) [
              | inl double ↦ cc (rw (from, to, double, persist_transitions) at k)
              | inr single ↦
                  persist_transitions-err ids ts (made ++ new ∷ []) e h.1
                    (rw (from, to, single, persist_transitions) at k)
            ]
      ]
    ]

ids-dag_input :
    (ps : List CanvasStep) (canvas : WorkflowCanvas)
    → node_ids (dag_input (record canvas { steps = ps })).nodes ≡ canvas_keys ps
ids-dag_input [] canvas = refl
ids-dag_input (p ∷ ps) canvas = ap (λ l. p.key ∷ l) (ids-dag_input ps canvas)

abbrev edges : List CanvasTransition → List DagEdge
edges = map (λ t. record { route = some t.route; source = t.source; target = t.target })

-- Each transition is an edge of the graph that is validated.
All-ends {ℓ} :
    (P : CanvasTransition → Type ℓ) (ts : List CanvasTransition) (all_edges : List DagEdge)
    → ((a v : String) → edge_count a v (edges ts) ≤ edge_count a v all_edges)
    → ((t : CanvasTransition) → Edge all_edges t.source t.target → P t)
    → All P ts
All-ends P [] all_edges sub k = tt
All-ends P (t ∷ ts) all_edges sub k = (
  k t (ground (arith, sub t.source t.target, str_eq_refl t.source, str_eq_refl t.target)),
  All-ends P ts all_edges (λ a v. ground (arith, sub a v)) k,
)

-- If `ensureCanvasIsDag` accepts the canvas, and no new step has the empty id, then `persistCanvas` throws
-- for no other reason than that the canvas has the same transition twice.
pub persist_canvas-err :
    (step_id : ℕ → String) (canvas : WorkflowCanvas) (r : DagResult) (e : ServiceError)
    → ((i : ℕ) → str_eq (step_id i) "" ≡ false)
    → ensure_canvas_is_dag canvas ≡ ok r
    → persist_canvas step_id canvas ≡ err e
    → e ≡ duplicate_transition
unfolding persist_canvas ensure_canvas_is_dag
persist_canvas-err step_id canvas r e fresh accepted thrown =
    elim (Result-cases (validate_dag (dag_input canvas) no_options)) [
      | inl (x, bad) ↦ absurd (cc (rw (bad, ensure_canvas_is_dag) at accepted))
      | inr (answer, valid) ↦
          let steps = new_steps step_id 0 canvas.steps in
          let names = ids-dag_input canvas.steps canvas in
          let made : persist_steps step_id 0 canvas.steps [] ≡ ok steps =
            persist_steps_lem step_id fresh 0 canvas.steps [] (λ v. ground (
              arith,
              rw names at (validate_dag-once (dag_input canvas) no_options answer valid v),
            )) in
          let known : (key : String)
              → 0 < count key (node_ids (dag_input canvas).nodes)
              → is_some (filled (lookup key (step_id_by_key steps []))) ≡ true =
            λ key h.
              lookup-filled steps [] key (new_steps-AllFilled step_id fresh 0 canvas.steps)
                (inl (rw (keys-new_steps step_id fresh 0 canvas.steps) (rw names at h))) in
          persist_transitions-err (step_id_by_key steps []) canvas.transitions [] e
            (All-ends _ canvas.transitions (edges canvas.transitions) (λ a v. omega arith)
              (λ t edge.
                let (from, to) =
                  validate_dag-ends (dag_input canvas) no_options answer valid t.source t.target
                    edge in
                (known t.source from, known t.target to)))
            (elim (Result-cases
              (persist_transitions (step_id_by_key steps []) canvas.transitions [])) [
                | inl (x, bad) ↦
                    ground (arith, rw (made, ◌>>=◌, bad, persist_canvas) at thrown, bad)
                | inr (x, fine) ↦ absurd (cc (rw (made, ◌>>=◌, fine, persist_canvas) at thrown))
              ])
    ]
