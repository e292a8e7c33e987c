-- ===== src/Plan/Steps.antt =====
-- `estimateToolCost`, `assertExecutionBudget`, `assertPlanSize` and the loop of `execute`.
use birthub_360_innovation.Base.{
  ℕ, suc, ◌+◌, ◌*◌, ◌≤◌, List, [], ◌∷◌, ◌++◌, map, none, some, ◌≡◌, refl, sym, ap, ◌∙◌, subst,
  arith, ltb, if◌then◌else◌, length, lookup, append_assoc, append-nil, str_append, decimal, ◌/◌,
  ◌^◌,
}
use mathlib.Core.List.{map-append}
use birthub_360_innovation.Base.Int.{Number, finite, pos}
use birthub_360_innovation.Base.Json.{Value, Fields}
use birthub_360_innovation.Base.Result.{Result, ok, err}
use birthub_360_innovation.Runner.Step.{set_field}
use birthub_360_innovation.Plan.{
  State, Options, PlanError, cost_limit_exceeded, plan_too_large, not_registered, Host, Request,
  Call, Tool, PlanStep, TraceNode, NodeType,
}
use birthub_360_innovation.Plan.Retry.{assert_execution_deadline, execute_with_retry}

-- `Math.round(x * 100)` for a finite number that is not negative, and 0 for any other.
unfoldable pub cents : Number → ℕ
cents (finite (pos m) k) = (200 * m + 2 ^ k) / 2 ^ suc k
cents _ = 0

unfoldable pub estimate_tool_cost : Host → Call → Tool → ℕ
estimate_tool_cost host call tool = cents (host.estimate_cost call tool)

unfoldable pub assert_execution_budget : Options → ℕ → ℕ → Result PlanError (Unit {0})
assert_execution_budget options estimated total = elim options.max_cost [
  | none ↦ ok tt
  | some limit ↦ if ltb limit (total + estimated) then err cost_limit_exceeded else ok tt
]

unfoldable pub assert_plan_size : Options → List Call → Result PlanError (Unit {0})
assert_plan_size options calls = elim options.max_plan_steps [
  | none ↦ ok tt
  | some limit ↦ if ltb limit (length calls) then err plan_too_large else ok tt
]

-- The variables of the loop.
pub record Progress : Type 0 where
  pub steps : List PlanStep
  pub total : ℕ
  pub context : Fields
  pub nodes : List TraceNode

-- The two nodes of the trace for the call at an index.
unfoldable pub trace_nodes : Request → ℕ → Call → List TraceNode
trace_nodes request index call =
    let node_id =
      str_append "tool_" (str_append request.execution_id (str_append "_" (decimal (index + 1)))) in
    record {
      id = node_id;
      label = call.tool;
      parent_id = some (str_append "trace_" request.execution_id);
      type = NodeType.tool;
    }
    ∷ record {
      id = str_append node_id "_result";
      label = "result";
      parent_id = some node_id;
      type = NodeType.result;
    }
    ∷ []

-- What the loop notes of a call that ended well.
unfoldable pub note_step : Request → ℕ → Call → ℕ → ℕ → ℕ → Value → Progress → Progress
note_step request index call cost started_at finished_at output p = record {
  steps =
      p.steps
      ++ record {
        call = call;
        estimated_cost = cost;
        finished_at = finished_at;
        output = output;
        started_at = started_at;
      }
        ∷ [];
  total = p.total + cost;
  context = set_field (str_append "step_" (decimal (index + 1))) output p.context;
  nodes = p.nodes ++ trace_nodes request index call;
}

-- The checks before a call is run.
unfoldable pub prepare_call : Host → Options → Call → ℕ → ℕ → State → Result PlanError (Tool × ℕ)
prepare_call host options call started_at total s =
    elim (assert_execution_deadline options started_at s) [
      | err e ↦ err e
      | ok _ ↦ elim (lookup call.tool options.tools) [
        | none ↦ err (not_registered call.tool)
        | some tool ↦
            let cost = estimate_tool_cost host call tool in
            elim (assert_execution_budget options cost total) [
              | err e ↦ err e
              | ok _ ↦ ok (tool, cost)
            ]
      ]
    ]

-- The loop, from an index on.
unfoldable pub run_calls :
    Host
    → Options
    → Request
    → ℕ
    → ℕ
    → List Call
    → Progress
    → State
    → State × Result PlanError Progress
run_calls host options request started_at index [] p s = (s, ok p)
run_calls host options request started_at index (call ∷ calls) p s =
    elim (prepare_call host options call started_at p.total s) [
      | err e ↦ (s, err e)
      | ok ready ↦
          let ran = execute_with_retry host options request call ready.0 started_at s in
          elim ran.1 [
            | err e ↦ (ran.0, err e)
            | ok output ↦
                run_calls host options request started_at (index + 1) calls
                  (note_step request index call ready.1 s.time ran.0.time output p) ran.0
          ]
    ]

-- The estimated cost of some steps.
abbrev pub cost_of : List PlanStep → ℕ
cost_of [] = 0
cost_of (x ∷ xs) = x.estimated_cost + cost_of xs

pub cost_of-append : (xs ys : List PlanStep) → cost_of (xs ++ ys) ≡ cost_of xs + cost_of ys
cost_of-append [] ys = omega arith
cost_of-append (x ∷ xs) ys = omega (arith, cost_of-append xs ys)

-- The total is within the ceiling, if there is one.
abbrev pub WithinCost : Options → ℕ → Type 0
WithinCost options total = elim options.max_cost [ none ↦ Unit | some limit ↦ total ≤ limit ]

-- What holds of the variables of the loop.
pub record IsAccounted (options : Options) (p : Progress) : Type 0 where
  pub summed : p.total ≡ cost_of p.steps
  pub within : WithinCost options p.total

prepare-WithinCost :
    (host : Host) (options : Options) (call : Call) (started_at total : ℕ) (s : State)
    (ready : Tool × ℕ)
    → prepare_call host options call started_at total s ≡ ok ready
    → WithinCost options (total + ready.1)
unfolding prepare_call assert_execution_budget
prepare-WithinCost host options call started_at total s ready h = ground arith

-- If the loop answers, and the total was the cost of the steps before and within the ceiling, then so it is
-- after; and the steps are those of the calls, in their order, behind the steps before.
pub run_calls_lem :
    (host : Host) (options : Options) (request : Request) (started_at index : ℕ) (calls : List Call)
    (p p' : Progress) (s s' : State)
    → IsAccounted options p
    → run_calls host options request started_at index calls p s ≡ (s', ok p')
    → IsAccounted options p' × (map (λ x. x.call) p'.steps ≡ map (λ x. x.call) p.steps ++ calls)
unfolding run_calls note_step
run_calls_lem host options request started_at index [] p p' s s' h e =
    let answers : ok p ≡ ok p' = ap (λ r. r.1) e in
    let same : p ≡ p' = cc answers in
    subst
      (λ q. IsAccounted options q × (map (λ x. x.call) q.steps ≡ map (λ x. x.call) p.steps ++ []))
      same (h, sym (append-nil _))
run_calls_lem host options request started_at index (call ∷ calls) p p' s s' h e =
    ready (λ q t. run_calls_lem host options request started_at (index + 1) calls q p' t s')
      (prepare_call host options call started_at p.total s) refl
  where
    Goal : Type 0
    Goal =
        IsAccounted options p'
        × (map (λ x. x.call) p'.steps ≡ map (λ x. x.call) p.steps ++ call ∷ calls)

    Rest : Type 0
    Rest =
        (q : Progress) (t : State)
        → IsAccounted options q
        → run_calls host options request started_at (index + 1) calls q t ≡ (s', ok p')
        → IsAccounted options p' × (map (λ x. x.call) p'.steps ≡ map (λ x. x.call) q.steps ++ calls)

    after :
        Rest
        → (r : Tool × ℕ) → prepare_call host options call started_at p.total s ≡ ok r
        → (answer : Result PlanError Value)
        → (execute_with_retry host options request call r.0 started_at s).1 ≡ answer
        → Goal
    after rest r fine (err x) q = cc (ap (λ z. z.1) (rw (fine, q, run_calls) at e))
    after rest r fine (ok output) q =
        let t = (execute_with_retry host options request call r.0 started_at s).0 in
        let next = note_step request index call r.1 s.time t.time output p in
        let step : PlanStep = record {
          call = call;
          estimated_cost = r.1;
          finished_at = t.time;
          output = output;
          started_at = s.time;
        } in
        let accounted : IsAccounted options next = record {
          summed = omega (arith, h.summed, cost_of-append p.steps (step ∷ []));
          within = prepare-WithinCost host options call started_at p.total s r fine;
        } in
        let (done, same) = rest next t accounted (rw (fine, q, run_calls) at e) in
        (done, same ∙ rw (map-append, append_assoc))

    ready :
        Rest
        → (r : Result PlanError (Tool × ℕ))
        → prepare_call host options call started_at p.total s ≡ r
        → Goal
    ready rest (err x) q = cc (ap (λ z. z.1) (rw (q, run_calls) at e))
    ready rest (ok r) q =
        after rest r q (execute_with_retry host options request call r.0 started_at s).1 refl
