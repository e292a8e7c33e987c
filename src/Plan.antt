-- ===== src/Plan.antt =====
-- apps/worker/src/executors/planExecutor.ts: requests, results and the state of a `PlanExecutor`. The
-- children model its methods. Costs are whole cents: the code rounds each cost and each total to
-- two decimals, and the error of floating-point sums below that is not modelled. Hooks and logging
-- are left out: no hook is set.
pub mod Redis
pub mod Circuit
pub mod Retry
pub mod Steps
pub mod Execute
mod Examples
use birthub_360_innovation.Base.{ℕ, String, Bool, List, Option, Dict}
use birthub_360_innovation.Base.Int.{Number, ℤ, pos, negsuc}
use birthub_360_innovation.Base.Json.{Value, Fields}
use birthub_360_innovation.Base.Result.{Result}

pub record Call : Type 0 where
  pub tool : String
  pub input : Value

pub record Request : Type 0 where
  pub execution_id : String
  pub agent_id : String
  pub tenant_id : String
  pub input : Fields
  pub tool_calls : Option (List Call)

pub record PlanStep : Type 0 where
  pub call : Call
  pub estimated_cost : ℕ
  pub output : Value
  pub started_at : ℕ
  pub finished_at : ℕ

pub data NodeType : Type 0 where
  plan result tool : NodeType

pub record TraceNode : Type 0 where
  pub id : String
  pub type : NodeType
  pub label : String
  pub parent_id : Option String

pub record PlanResult : Type 0 where
  pub execution_id : String
  pub tenant_id : String
  pub agent_id : String
  pub cached : Bool
  pub estimated_cost_total : ℕ
  pub output : Fields
  pub steps : List PlanStep
  pub trace_id : String
  pub trace_nodes : List TraceNode

-- The errors that the executor makes, the errors of a tool, and a thrown value that is no `Error`.
pub data PlanError : Type 0 where
  cost_limit_exceeded execution_timeout plan_too_large circuit_open already_running retries_failed
        not_an_error unreadable_result :
      PlanError
  not_registered tool_failed : String → PlanError

pub record Tool : Type 0 where
  pub name : String
  pub timeout_ms : ℕ

-- The options of the constructor, with its defaults filled in.
pub record Options : Type 0 where
  pub tools : Dict Tool
  pub cooldown_ms : ℕ
  pub failure_threshold : ℕ
  pub execution_timeout_ms : Option ℕ
  pub max_cost : Option ℕ
  pub max_plan_steps : Option ℕ
  pub retry_attempts : ℕ

pub record Breaker : Type 0 where
  pub failure_count : ℕ
  pub open_until : Option ℕ

-- A key of Redis with the time at which it expires.
pub record Entry {ℓ} (A : Type ℓ) : Type ℓ where
  pub content : A
  pub expires_at : ℕ

-- `time` is what `Date.now()` reads, and moves on while the executor waits.
pub record State : Type 0 where
  pub time : ℕ
  pub breakers : Dict Breaker
  pub locks : Dict (Entry String)
  pub results : Dict (Entry String)

-- How a tool's `run` ends, and when.
pub record Ran : Type 0 where
  pub ended_at : ℕ
  pub answer : Result PlanError Value

-- What the executor takes from elsewhere: the planner, a tool's `run` with its timeout, the cost
-- estimator, and the random number up to a bound that `jitter` draws. They may depend on the time. So it
-- takes `JSON.stringify` and `JSON.parse` on results: what is read of a text that was written need not be
-- what was written, for a value that JSON has not, and of another text reading may throw.
pub record Host : Type 0 where
  pub build_plan : Request → List Call
  pub run_tool : Request → Call → ℕ → ℕ → Ran
  pub estimate_cost : Call → Tool → Number
  pub random_up_to : ℕ → ℕ → ℕ
  pub stringify : PlanResult → String
  pub parse : String → Option PlanResult
