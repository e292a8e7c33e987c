-- ===== src/Workflows/Linked/Canvas.antt =====
-- The steps and transitions that are made from a canvas are linked.
use birthub_360_innovation.Base.{
  ℕ, String, true, List, [], ◌∷◌, ◌++◌, Option, none, some, ◌≡◌, subst, ◌⊎◌, inl, inr, arith,
  Bool-cases, Option-cases, str_eq, str_eq_refl, any, All, Dict, lookup, insert, lookup-insert,
  All-append,
}
use birthub_360_innovation.Base.Result.{ok, Result-cases}
use birthub_360_innovation.Runner.{WorkflowStep, Transition}
use birthub_360_innovation.Runner.Linked.{has_step}
use birthub_360_innovation.Workflows.{CanvasTransition, WorkflowCanvas}
use birthub_360_innovation.Workflows.Canvas.{
  step_id_by_key, filled, same_transition, persist_steps, persist_transitions, persist_canvas,
}

abbrev pub AreLinked : List WorkflowStep → List Transition → Type 0
AreLinked steps =
    All (λ t. (has_step t.source_step_id steps ≡ true) × (has_step t.target_step_id steps ≡ true))

-- What is looked up in the map of the ids is the id of a step.
lookup-step_id_by_key :
    (steps : List WorkflowStep) (m : Dict String) (key id : String)
    → lookup key (step_id_by_key steps m) ≡ some id
    → (has_step id steps ≡ true) ⊎ (lookup key m ≡ some id)
unfolding step_id_by_key
lookup-step_id_by_key [] m key id e = inr e
lookup-step_id_by_key (p ∷ ps) m key id e =
    elim (lookup-step_id_by_key ps (insert p.key p.id m) key id e) [
      | inl later ↦ inl (ground (arith, later))
      | inr old ↦ ground (arith, old, lookup-insert p.key key p.id m, str_eq_refl p.id)
    ]

filled-some : (o : Option String) (id : String) → filled o ≡ some id → o ≡ some id
filled-some none id e = e
filled-some (some x) id e = elim (Bool-cases (str_eq x "")) [
  | inl blank ↦ absurd (cc (rw blank at e))
  | inr fine ↦ rw fine at e
]

known_step :
    (steps : List WorkflowStep) (key id : String)
    → filled (lookup key (step_id_by_key steps [])) ≡ some id
    → has_step id steps ≡ true
known_step steps key id e = elim (lookup-step_id_by_key steps [] key id (filled-some _ id e)) [
  | inl there ↦ there
  | inr nothing ↦ absurd (cc nothing)
]

persist_transitions-AreLinked :
    (steps : List WorkflowStep) (ts : List CanvasTransition) (made r : List Transition)
    → AreLinked steps made
    → persist_transitions (step_id_by_key steps []) ts made ≡ ok r
    → AreLinked steps r
unfolding persist_transitions
persist_transitions-AreLinked steps [] made r h e =
    let same : made ≡ r = cc e in subst (AreLinked steps) same h
persist_transitions-AreLinked steps (t ∷ ts) made r h e =
    elim (Option-cases (filled (lookup t.source (step_id_by_key steps [])))) [
      | inl missing ↦ absurd (cc (rw (missing, persist_transitions) at e))
      | inr (source, from) ↦
          elim (Option-cases (filled (lookup t.target (step_id_by_key steps [])))) [
            | inl missing ↦ absurd (cc (rw (from, missing, persist_transitions) at e))
            | inr (target, to) ↦
                let new : Transition = record {
                  source_step_id = source;
                  target_step_id = target;
                  route = t.route;
                } in
                elim (Bool-cases (any (same_transition new) made)) [
                  | inl double ↦ absurd (cc (rw (from, to, double, persist_transitions) at e))
                  | inr single ↦
                      persist_transitions-AreLinked steps ts (made ++ new ∷ []) r
                        (All-append _ made (new ∷ []) h (
                          (
                            known_step steps t.source source from,
                            known_step steps t.target target to,
                          ),
                          tt,
                        ))
                        (rw (from, to, single, persist_transitions) at e)
                ]
          ]
    ]

pub persist_canvas-AreLinked :
    (step_id : ℕ → String) (canvas : WorkflowCanvas) (made : List WorkflowStep × List Transition)
    → persist_canvas step_id canvas ≡ ok made
    → AreLinked made.0 made.1
unfolding persist_canvas
persist_canvas-AreLinked step_id canvas made e =
    elim (Result-cases (persist_steps step_id 0 canvas.steps [])) [
      | inl (x, bad) ↦ absurd (cc (rw (bad, persist_canvas) at e))
      | inr (steps, first) ↦
          elim (Result-cases
            (persist_transitions (step_id_by_key steps []) canvas.transitions [])) [
              | inl (x, bad) ↦ absurd (cc (rw (first, bad, persist_canvas) at e))
              | inr (transitions, second) ↦
                  let same : (steps, transitions) ≡ made =
                    cc (rw (first, second, persist_canvas) at e) in
                  subst (λ m. AreLinked m.0 m.1) same
                    (persist_transitions-AreLinked steps canvas.transitions [] transitions tt
                      second)
            ]
    ]
