-- ===== src/Workflows/Examples.antt =====
-- The service and the worker at work: a workflow of two steps is saved and run, one with a transition
-- twice is refused, and one without a trigger step is run.
use birthub_360_innovation.Base.{
  ℕ, zero, suc, String, true, false, [], ◌∷◌, List, none, some, ◌≡◌, refl, ◌⊎◌, str_eq, find,
  filter, insert,
}
use birthub_360_innovation.Base.Int.{int}
use birthub_360_innovation.Base.Json.{null}
use birthub_360_innovation.Base.Result.{ok, err}
use birthub_360_innovation.Auth.{Organization}
use birthub_360_innovation.Dag.{StepType, trigger_webhook, http_request, always}
use birthub_360_innovation.Dag.Build.{
  is_blank, index_nodes, init_adjacency, init_indegree, assert_edge_endpoints, add_edge, add_edges,
  assert_no_isolated_nodes,
}
use birthub_360_innovation.Dag.Cycle.{
  slice_from, cycle_at, pop, visit_all, get_cycle_path, find_cycle,
}
use birthub_360_innovation.Dag.Connect.{push_targets, reach_loop, assert_connected_from_root}
use birthub_360_innovation.Dag.Sort.{relax, sort_loop, topological_sort}
use birthub_360_innovation.Dag.Validate.{validate_dag, validate_maps, check_roots}
use birthub_360_innovation.Runner as Worker
use birthub_360_innovation.Runner.{
  WorkflowStatus, TriggerType, JobPayload, Moment, Execution, TriggerPayload,
}
use birthub_360_innovation.Runner.Trigger.{new_execution, trigger_job}
use birthub_360_innovation.Runner.Job.{
  process_execution_job, process_step, attempt_step, catch_step,
}
use birthub_360_innovation.Runner.Step.{
  compute_output, cached_output, run_step, steps_context, entries, set_field, step_input_hash,
}
use birthub_360_innovation.Runner.Forward.{Forward, HasFreeIds}
use birthub_360_innovation.Workflows.{
  Store, Row, WorkflowCanvas, CanvasStep, CanvasTransition, CreateInput, Host, Draw,
  duplicate_transition, invalid_cron,
}
use birthub_360_innovation.Workflows.Canvas.{
  ensure_canvas_is_dag, persist_canvas, persist_steps, persist_transitions, new_step,
  step_id_by_key, get_trigger_step_key,
}
use birthub_360_innovation.Workflows.Service.{
  create_workflow, created_row, accept_input, new_row, get_workflow_by_id, resolve_scoped_identity,
  assert_workflow_limit, read_numeric_plan_limit, schedule, insert_latest, latest_first,
}
use birthub_360_innovation.Workflows.Update.{
  runnable, run_workflow_now, trigger_payload, enqueue_workflow_execution,
}
use birthub_360_innovation.Workflows.System.{
  Reachable, start, next, create, run, remove, empty, worker_store,
}
use birthub_360_innovation.Workflows.Linked.{Reachable-RowsLinked, work-Forward}
use birthub_360_innovation.Workflows.Linked.Rows.{RowsLinked}
use birthub_360_innovation.Workflows.Refused.{create_workflow-err, IsRefused}

abbrev organization : Organization
organization = record { id = "o"; slug = none; tenant_id = "t" }

abbrev canvas_step : String → StepType → CanvasStep
canvas_step key type = record {
  config = null;
  is_trigger = none;
  key = key;
  name = key;
  type = type;
}

abbrev follow : CanvasTransition
follow = record { route = always; source = "a"; target = "b" }

abbrev canvas : List CanvasTransition → WorkflowCanvas
canvas transitions = record {
  steps = canvas_step "a" trigger_webhook ∷ canvas_step "b" http_request ∷ [];
  transitions = transitions;
}

abbrev lone : WorkflowCanvas
lone = record { steps = canvas_step "b" http_request ∷ []; transitions = [] }

abbrev input : WorkflowCanvas → CreateInput
input drawn = record {
  canvas = drawn;
  cron_expression = none;
  description = none;
  event_topic = none;
  max_depth = 50;
  name = "n";
  status = WorkflowStatus.published;
  trigger_config = null;
  trigger_type = TriggerType.manual;
}

abbrev host : Host
host = record { plan_limits = λ t. null; sha256 = λ t. t; accepts_cron = λ t. false }

abbrev ids : ℕ → String
ids zero = "s0"
ids (suc i) = "s1"

fresh : (i : ℕ) → str_eq (ids i) "" ≡ false
fresh zero = refl
fresh (suc i) = refl

abbrev draw : String → Draw
draw row_id = record { time = 5; row_id = row_id; step_id = ids; uuid = "u" }

abbrev saved : WorkflowCanvas → Store
saved drawn = (create_workflow host (draw "w") "o" (input drawn) (empty (organization ∷ []))).0

abbrev running : WorkflowCanvas → Store
running drawn = (run_workflow_now (draw "e") "w" "o" null TriggerType.manual (saved drawn)).0

running-Reachable : (drawn : WorkflowCanvas) → Reachable (running drawn)
running-Reachable drawn =
    next (next (start (organization ∷ [])) (create host (draw "w") "o" (input drawn)))
      (run (draw "e") "w" "o" null TriggerType.manual)

Reachable-RowsLinked_example : RowsLinked (running (canvas (follow ∷ [])))
Reachable-RowsLinked_example =
    Reachable-RowsLinked (running (canvas (follow ∷ []))) (running-Reachable (canvas (follow ∷ [])))

-- The jobs are done and removed.
abbrev later : Store
later = record (running (canvas (follow ∷ []))) {
  held = filter (λ id. false) (running (canvas (follow ∷ []))).held;
}

later-Reachable : Reachable later
later-Reachable = next (running-Reachable (canvas (follow ∷ []))) (remove (λ id. false))

twice_answer :
    create_workflow host
      (draw "w")
      "o"
      (input (canvas (follow ∷ follow ∷ [])))
      (empty (organization ∷ []))
    ≡ (empty (organization ∷ []), err duplicate_transition)
unfolding create_workflow created_row accept_input resolve_scoped_identity assert_workflow_limit
    read_numeric_plan_limit ensure_canvas_is_dag get_trigger_step_key persist_canvas persist_steps
    new_step step_id_by_key persist_transitions validate_dag validate_maps check_roots push_targets
    reach_loop assert_connected_from_root slice_from cycle_at pop visit_all get_cycle_path
    find_cycle relax sort_loop topological_sort is_blank index_nodes init_adjacency init_indegree
    assert_edge_endpoints add_edge add_edges assert_no_isolated_nodes insert
twice_answer = refl

create_workflow-err_example :
    ((empty (organization ∷ []) ≡ empty (organization ∷ []))
      × ((accept_input host
              (draw "w")
              "o"
              (input (canvas (follow ∷ follow ∷ [])))
              (empty (organization ∷ []))
            ≡ err duplicate_transition)
          ⊎ (duplicate_transition ≡ duplicate_transition)))
    ⊎ ((duplicate_transition ≡ invalid_cron)
        × (row : Row) × (created_row host
              (draw "w")
              "o"
              (input (canvas (follow ∷ follow ∷ [])))
              (empty (organization ∷ []))
            ≡ ok row)
        × IsRefused host TriggerType.manual row
        × (empty (organization ∷ []) ≡ record (empty (organization ∷ [])) { rows = row ∷ [] }))
create_workflow-err_example =
    create_workflow-err host (draw "w") "o" (input (canvas (follow ∷ follow ∷ [])))
      (empty (organization ∷ [])) (empty (organization ∷ [])) duplicate_transition fresh
      twice_answer

-- A trigger's step answers null.
abbrev worker : Worker.Host
worker = record {
  stringify = λ v. "null";
  sha256 = λ t. t;
  to_number = λ v. int 0;
  accepts_step = λ p. true;
  execute_step = λ p c. ok null;
  unique_violation = "unique";
}

abbrev clock : Moment → ℕ
clock m = 7

abbrev first_job : JobPayload
first_job = record {
  attempt = 1;
  execution_id = "e";
  organization_id = "o";
  step_key = "a";
  tenant_id = "t";
  trigger_payload = null;
  trigger_type = TriggerType.manual;
  workflow_id = "w";
}

abbrev begun : Execution
begun = record {
  id = "e";
  organization_id = "o";
  tenant_id = "t";
  workflow_id = "w";
  status = Worker.ExecutionStatus.running;
  trigger_type = TriggerType.manual;
  trigger_payload = null;
  depth = 0;
  started_at = 5;
  completed_at = none;
  duration_ms = none;
  error_message = none;
}

begun_found :
    find (λ (e : Execution). str_eq e.id "e") (running (canvas (follow ∷ []))).executions
    ≡ some begun
unfolding create_workflow created_row accept_input resolve_scoped_identity assert_workflow_limit
    read_numeric_plan_limit ensure_canvas_is_dag get_trigger_step_key persist_canvas persist_steps
    new_step step_id_by_key persist_transitions validate_dag validate_maps check_roots push_targets
    reach_loop assert_connected_from_root slice_from cycle_at pop visit_all get_cycle_path
    find_cycle relax sort_loop topological_sort is_blank index_nodes init_adjacency init_indegree
    assert_edge_endpoints add_edge add_edges assert_no_isolated_nodes insert run_workflow_now
    runnable get_workflow_by_id new_row schedule enqueue_workflow_execution insert_latest
    latest_first trigger_payload new_execution trigger_job
begun_found = refl

returned : (process_execution_job worker clock first_job (worker_store later)).1 ≡ true
unfolding create_workflow created_row accept_input resolve_scoped_identity assert_workflow_limit
    read_numeric_plan_limit ensure_canvas_is_dag get_trigger_step_key persist_canvas persist_steps
    new_step step_id_by_key persist_transitions validate_dag validate_maps check_roots push_targets
    reach_loop assert_connected_from_root slice_from cycle_at pop visit_all get_cycle_path
    find_cycle relax sort_loop topological_sort is_blank index_nodes init_adjacency init_indegree
    assert_edge_endpoints add_edge add_edges assert_no_isolated_nodes insert run_workflow_now
    runnable get_workflow_by_id new_row schedule enqueue_workflow_execution insert_latest
    latest_first trigger_payload new_execution trigger_job worker_store process_execution_job
    process_step attempt_step catch_step compute_output cached_output run_step steps_context entries
    set_field step_input_hash Worker.create_result Worker.is_taken
returned = refl

removed : (ids : List String) → filter (λ id. false) ids ≡ []
removed [] = refl
removed (id ∷ ids) = removed ids

no_ids : HasFreeIds clock first_job later.held
no_ids = rw removed (record { retry = refl; behind = λ i key. refl })

work-Forward_example :
    Forward "e"
      (worker_store later)
      (process_execution_job worker clock first_job (worker_store later)).0
work-Forward_example =
    work-Forward worker clock first_job later begun later-Reachable no_ids begun_found refl returned

abbrev lone_row : Row
lone_row =
    new_row host (draw "w") organization (input lone)
      (record {
        id = "s0";
        key = "b";
        name = "b";
        type = http_request;
        config = null;
        is_trigger = false;
        cache_ttl_seconds = none;
        on_error = Worker.OnError.stop;
      }
        ∷ [])
      []
