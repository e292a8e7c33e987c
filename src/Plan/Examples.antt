-- ===== src/Plan/Examples.antt =====
-- A plan of one call: run, read back, and with its tool blocked.
use birthub_360_innovation.Base.{
  true, false, ◌&&◌, ◌+◌, [], ◌∷◌, map, none, some, ◌≡◌, refl, inr, arith, ◌==◌, ltb, insert,
  decimal,
}
use birthub_360_innovation.Base.Int.{int}
use birthub_360_innovation.Base.Json.{null, bool, end, field}
use birthub_360_innovation.Base.Result.{ok}
use birthub_360_innovation.Runner.Step.{set_field}
use birthub_360_innovation.Plan.{Call, Request, NodeType, PlanResult, Options, State, Host}
use birthub_360_innovation.Plan.Redis.{get, set_ex, del, lock_key}
use birthub_360_innovation.Plan.Circuit.{
  closed, is_blocked, failing, get_circuit_breaker_state, assert_circuit_open, mark_tool_success,
  mark_tool_failure_lem,
}
use birthub_360_innovation.Plan.Retry.{
  assert_execution_deadline, resolve_tool_timeout, try_tool, retry_loop, execute_with_retry,
}
use birthub_360_innovation.Plan.Steps.{
  cents, estimate_tool_cost, assert_execution_budget, assert_plan_size, trace_nodes, note_step,
  prepare_call, run_calls, Progress, WithinCost, cost_of,
}
use birthub_360_innovation.Plan.Execute.{
  planned, first_progress, plan_result, run_plan, unlock, execute, stored_text, WithinSize,
  execute-accounted, execute-released, execute-cached,
}

abbrev call : Call
call = record { tool = "http"; input = null }

abbrev request : Request
request = record {
  execution_id = "x";
  agent_id = "a";
  tenant_id = "t";
  input = end;
  tool_calls = some (call ∷ []);
}

abbrev options : Options
options = record {
  tools = ("http", record { name = "http"; timeout_ms = 100 }) ∷ [];
  cooldown_ms = 60000;
  failure_threshold = 5;
  execution_timeout_ms = some 5000;
  max_cost = some 1000;
  max_plan_steps = some 3;
  retry_attempts = 3;
}

-- Every call costs 2.00 and answers after 5 milliseconds.
abbrev idle : State
idle = record { time = 10; breakers = []; locks = []; results = [] }

abbrev done : PlanResult
done = record {
  execution_id = "x";
  tenant_id = "t";
  agent_id = "a";
  cached = false;
  estimated_cost_total = 200;
  output = field "step_1" (bool true) end;
  steps =
      record {
        call = call;
        estimated_cost = 200;
        output = bool true;
        started_at = 10;
        finished_at = 15;
      }
      ∷ [];
  trace_id = "trace_x";
  trace_nodes =
      record { id = "trace_x"; type = NodeType.plan; label = "agent:a"; parent_id = none }
      ∷ record { id = "tool_x_1"; type = NodeType.tool; label = "http"; parent_id = some "trace_x" }
      ∷ record {
        id = "tool_x_1_result";
        type = NodeType.result;
        label = "result";
        parent_id = some "tool_x_1";
      }
      ∷ [];
}

abbrev host : Host
host = record {
  build_plan = λ r. [];
  run_tool = λ r c timeout time. record { ended_at = time + 5; answer = ok (bool true) };
  estimate_cost = λ c tool. int 2;
  random_up_to = λ bound time. 0;
  stringify = λ r. "result";
  parse = λ text. some done;
}

abbrev after : State
after = record {
  time = 15;
  breakers = ("http", closed) ∷ [];
  locks = [];
  results = ("exec_result:x", record { content = "result"; expires_at = 3600015 }) ∷ [];
}

abbrev progress : Progress
progress = record {
  steps = done.steps;
  total = 200;
  context = done.output;
  nodes = done.trace_nodes;
}

execute_answer : execute host options request idle ≡ (after, ok done)
unfolding execute stored_text run_plan planned first_progress plan_result unlock run_calls
    prepare_call note_step trace_nodes assert_plan_size assert_execution_budget estimate_tool_cost
    cents execute_with_retry retry_loop try_tool resolve_tool_timeout assert_execution_deadline
    mark_tool_success assert_circuit_open get_circuit_breaker_state get set_ex del set_field insert
    decimal
execute_answer = refl

execute-accounted_example :
    (200 ≡ cost_of done.steps)
    × WithinCost options 200
    × (map (λ x. x.call) done.steps ≡ planned host request)
    × WithinSize options (planned host request)
execute-accounted_example =
    execute-accounted host options request idle after done execute_answer refl

execute-released_example : get 99 (lock_key "x") (execute host options request idle).0.locks ≡ none
unfolding get
execute-released_example = execute-released host options request idle refl refl 99

execute-cached_example :
    execute host options request after ≡ (after, ok (record done { cached = true }))
execute-cached_example =
    execute-cached host options request idle after done done execute_answer refl refl refl request
      after refl refl (omega arith)

-- The breaker was open until 8; of five failures the last is at 14.
abbrev reopened : State
reopened = record idle {
  breakers = ("http", record { failure_count = 5; open_until = some 8 }) ∷ [];
}

mark_tool_failure_lem_example :
    is_blocked 50 "http" (failing options "http" (10 ∷ 11 ∷ 12 ∷ 13 ∷ 14 ∷ []) reopened)
    ≡ ((5 == 5) && ltb 50 (14 + 60000))
mark_tool_failure_lem_example =
    mark_tool_failure_lem options "http" 50 10 (11 ∷ 12 ∷ 13 ∷ 14 ∷ []) reopened
      (inr (8, refl, omega arith)) (omega arith)
