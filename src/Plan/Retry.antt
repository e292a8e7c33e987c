-- ===== src/Plan/Retry.antt =====
-- `assertExecutionDeadline`, `resolveToolTimeout`, `jitter` and the loop of `executeWithRetry`.
use birthub_360_innovation.Base.{
  ℕ, zero, suc, ◌+◌, ◌-◌, ◌*◌, Bool, true, false, Option, none, some, leb, ◌==◌, if◌then◌else◌, min,
  max, ◌/◌,
}
use birthub_360_innovation.Base.Json.{Value}
use birthub_360_innovation.Base.Result.{Result, ok, err}
use birthub_360_innovation.Plan.{
  State, Options, PlanError, circuit_open, execution_timeout, retries_failed, not_an_error, Host,
  Request, Call, Tool,
}
use birthub_360_innovation.Plan.Circuit.{assert_circuit_open, mark_tool_success, mark_tool_failure}

-- `Date.now() - startedAtMs` is no less than the timeout, if there is one.
abbrev pub is_late : Options → ℕ → ℕ → Bool
is_late options started_at time = elim options.execution_timeout_ms [
  | none ↦ false
  | some limit ↦ leb limit (time - started_at)
]

unfoldable pub assert_execution_deadline : Options → ℕ → State → Result PlanError (Unit {0})
assert_execution_deadline options started_at s =
    if is_late options started_at s.time then err execution_timeout else ok tt

-- The timeouts of tools are finite numbers.
unfoldable pub resolve_tool_timeout : Options → Tool → ℕ → State → Result PlanError ℕ
resolve_tool_timeout options tool started_at s = elim options.execution_timeout_ms [
  | none ↦ ok tool.timeout_ms
  | some limit ↦
      if leb limit (s.time - started_at)
      then err execution_timeout
      else ok (max 1 (min tool.timeout_ms (limit - (s.time - started_at))))
]

-- `RETRY_DELAYS_MS[Math.min(attempt, 2)]`
unfoldable pub retry_delay : ℕ → ℕ
retry_delay zero = 1000
retry_delay (suc zero) = 5000
retry_delay (suc (suc n)) = 30000

unfoldable pub jitter : Host → ℕ → ℕ → ℕ
jitter host time delay_ms = delay_ms + host.random_up_to (delay_ms * 15 / 100) time

abbrev pub is_circuit_open : PlanError → Bool
is_circuit_open circuit_open = true
is_circuit_open _ = false

-- `lastError instanceof Error ? lastError : new Error(…)`
abbrev pub rethrown : Option PlanError → PlanError
rethrown none = retries_failed
rethrown (some not_an_error) = retries_failed
rethrown (some e) = e

-- The `try` block: the state, and the answer or what `catch` catches.
unfoldable pub try_tool :
    Host → Options → Request → Call → Tool → ℕ → State → State × Result PlanError Value
try_tool host options request call tool started_at s =
    elim (resolve_tool_timeout options tool started_at s) [
      | err e ↦ (s, err e)
      | ok timeout ↦
          let ran = host.run_tool request call timeout s.time in
          let s' = record s { time = max s.time ran.ended_at } in
          (elim ran.answer [ ok v ↦ mark_tool_success call.tool s' | err e ↦ s' ], ran.answer)
    ]

-- The loop, with the rounds that are left and the error of the last.
unfoldable pub retry_loop :
    Host
    → Options
    → Request
    → Call
    → Tool
    → ℕ
    → ℕ
    → ℕ
    → Option PlanError
    → State
    → State × Result PlanError Value
retry_loop host options request call tool started_at zero attempt last s =
    (mark_tool_failure options call.tool s, err (rethrown last))
retry_loop host options request call tool started_at (suc left) attempt last s =
    let (s1, closed) = assert_circuit_open call.tool s in
    let (s2, answer) = try_tool host options request call tool started_at s1 in
    let again = λ (e : PlanError).
      retry_loop host options request call tool started_at left (attempt + 1) (some e)
        (record s2 { time = s2.time + jitter host s2.time (retry_delay attempt) }) in
    elim (assert_execution_deadline options started_at s) [
      | err e ↦ (s, err e)
      | ok _ ↦ elim closed [
        | err e ↦ (s1, err e)
        | ok _ ↦ elim answer [
          | ok v ↦ (s2, ok v)
          | err e ↦
              if is_circuit_open e
              then (s2, err e)
              else if left == 0
              then (mark_tool_failure options call.tool s2, err (rethrown (some e)))
              else again e
        ]
      ]
    ]

unfoldable pub execute_with_retry :
    Host → Options → Request → Call → Tool → ℕ → State → State × Result PlanError Value
execute_with_retry host options request call tool started_at s =
    retry_loop host options request call tool started_at options.retry_attempts 0 none s
