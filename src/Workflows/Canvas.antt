-- ===== src/Workflows/Canvas.antt =====
-- The canvas of a workflow: its validation, and the steps and transitions that are made from it.
use birthub_360_innovation.Base.{
  ℕ, ◌+◌, String, Bool, false, ◌&&◌, List, [], ◌∷◌, ◌++◌, map, Option, none, some, leb,
  if◌then◌else◌, get_or, str_eq, find, any, Dict, lookup, insert,
}
use birthub_360_innovation.Base.Result.{Result, ok, err, ◌>>=◌}
use birthub_360_innovation.Dag.{DagInput, DagOptions, DagResult, Route}
use birthub_360_innovation.Dag.Validate.{validate_dag}
use birthub_360_innovation.Runner.{WorkflowStep, Transition, OnError}
use birthub_360_innovation.Runner.Trigger.{is_trigger_type}
use birthub_360_innovation.Workflows.{
  WorkflowCanvas, CanvasStep, CanvasTransition, ServiceError, invalid_canvas, duplicate_step_key,
  duplicate_transition, workflow_transition_missing_endpoint,
}

abbrev pub dag_input : WorkflowCanvas → DagInput
dag_input canvas = record {
  edges =
      map (λ t. record { route = some t.route; source = t.source; target = t.target })
        canvas.transitions;
  nodes =
      map
        (λ p. record {
          id = p.key;
          is_trigger = some (get_or p.is_trigger false);
          type = some p.type;
        })
        canvas.steps;
}

abbrev pub no_options : DagOptions
no_options = record { require_connected = none; require_single_trigger = none }

unfoldable pub ensure_canvas_is_dag : WorkflowCanvas → Result ServiceError DagResult
ensure_canvas_is_dag canvas = elim (validate_dag (dag_input canvas) no_options) [
  | ok r ↦ ok r
  | err e ↦ err (invalid_canvas e)
]

-- `none` where the canvas has no step at all.
unfoldable pub get_trigger_step_key : WorkflowCanvas → Option String
get_trigger_step_key canvas =
    elim (find (λ (p : CanvasStep). is_trigger_type p.type) canvas.steps) [
      | some p ↦ some p.key
      | none ↦ elim canvas.steps [ [] ↦ none | p ∷ more ↦ some p.key ]
    ]

-- The row of a step: what is not given has its default.
unfoldable pub new_step : String → CanvasStep → WorkflowStep
new_step id p = record {
  id = id;
  key = p.key;
  name = p.name;
  type = p.type;
  config = p.config;
  is_trigger = is_trigger_type p.type;
  cache_ttl_seconds = none;
  on_error = OnError.stop;
}

-- The first loop of `persistCanvas`. The key is unique among the steps of a workflow.
unfoldable pub persist_steps :
    (ℕ → String) → ℕ → List CanvasStep → List WorkflowStep → Result ServiceError (List WorkflowStep)
persist_steps step_id i [] made = ok made
persist_steps step_id i (p ∷ ps) made =
    let rest = persist_steps step_id (i + 1) ps (made ++ new_step (step_id i) p ∷ []) in
    if any (λ m. str_eq m.key p.key) made then err duplicate_step_key else rest

-- `stepIdByKey`, and what a lookup in it is taken for: the empty id is none.
unfoldable pub step_id_by_key : List WorkflowStep → Dict String → Dict String
step_id_by_key [] m = m
step_id_by_key (p ∷ ps) m = step_id_by_key ps (insert p.key p.id m)

abbrev pub filled : Option String → Option String
filled none = none
filled (some id) = if str_eq id "" then none else some id

abbrev pub route_number : Route → ℕ
route_number Route.always = 0
route_number Route.if_true = 1
route_number Route.if_false = 2
route_number Route.on_success = 3
route_number Route.on_failure = 4
route_number Route.fallback = 5

abbrev pub same_transition : Transition → Transition → Bool
same_transition t u =
    str_eq t.source_step_id u.source_step_id
    && str_eq t.target_step_id u.target_step_id
    && leb (route_number t.route) (route_number u.route)
    && leb (route_number u.route) (route_number t.route)

-- The second loop. A transition is unique among those of a workflow.
unfoldable pub persist_transitions :
    Dict String → List CanvasTransition → List Transition → Result ServiceError (List Transition)
persist_transitions ids [] made = ok made
persist_transitions ids (t ∷ ts) made = elim (filled (lookup t.source ids)) [
  | none ↦ err workflow_transition_missing_endpoint
  | some source ↦ elim (filled (lookup t.target ids)) [
    | none ↦ err workflow_transition_missing_endpoint
    | some target ↦
        let new : Transition = record {
          source_step_id = source;
          target_step_id = target;
          route = t.route;
        } in
        if any (same_transition new) made
        then err duplicate_transition
        else persist_transitions ids ts (made ++ new ∷ [])
  ]
]

unfoldable pub persist_canvas :
    (ℕ → String) → WorkflowCanvas → Result ServiceError (List WorkflowStep × List Transition)
persist_canvas step_id canvas = do
  steps ← persist_steps step_id 0 canvas.steps []
  transitions ← persist_transitions (step_id_by_key steps []) canvas.transitions []
  ok (steps, transitions)
