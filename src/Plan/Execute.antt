-- ===== src/Plan/Execute.antt =====
-- `execute`, with the default planner.
use birthub_360_innovation.Base.{
  ℕ, ◌+◌, ◌*◌, ◌≤◌, ◌<◌, String, Option, str_eq, if◌then◌else◌, true, false, List, [], ◌∷◌, map,
  none, some, ◌≡◌, refl, sym, ap, ◌∙◌, inl, inr, arith, get_or, Option-cases, str_eq_refl, length,
  str_append,
}
use birthub_360_innovation.Base.Result.{Result, ok, err}
use birthub_360_innovation.Plan.{
  State, Options, PlanError, already_running, unreadable_result, Host, Request, Call, NodeType,
  PlanResult,
}
use birthub_360_innovation.Plan.Redis.{get-set_ex, lookup-del}
use birthub_360_innovation.Plan.Redis.{
  get, set_ex, del, result_key, lock_key, exec_result_ttl_seconds, exec_lock_ttl_seconds,
}
use birthub_360_innovation.Plan.Steps.{
  Progress, assert_plan_size, run_calls, IsAccounted, run_calls_lem, cost_of, WithinCost,
}

unfoldable pub planned : Host → Request → List Call
planned host request = get_or request.tool_calls (host.build_plan request)

unfoldable pub first_progress : Request → Progress
first_progress request = record {
  steps = [];
  total = 0;
  context = request.input;
  nodes =
      record {
        id = str_append "trace_" request.execution_id;
        label = str_append "agent:" request.agent_id;
        type = NodeType.plan;
        parent_id = none;
      }
      ∷ [];
}

unfoldable pub plan_result : Request → Progress → PlanResult
plan_result request p = record {
  agent_id = request.agent_id;
  cached = false;
  estimated_cost_total = p.total;
  execution_id = request.execution_id;
  output = p.context;
  steps = p.steps;
  tenant_id = request.tenant_id;
  trace_id = str_append "trace_" request.execution_id;
  trace_nodes = p.nodes;
}

-- The `try` block. The result is stored as text and parsed again when it is read.
unfoldable pub run_plan : Host → Options → Request → State → State × Result PlanError PlanResult
run_plan host options request s =
    let calls = planned host request in
    elim (assert_plan_size options calls) [
      | err e ↦ (s, err e)
      | ok _ ↦
          let ran = run_calls host options request s.time 0 calls (first_progress request) s in
          elim ran.1 [
            | err e ↦ (ran.0, err e)
            | ok p ↦
                let result = plan_result request p in
                (
                  record (ran.0) {
                    results =
                        set_ex ran.0.time (result_key request.execution_id) (host.stringify result)
                          exec_result_ttl_seconds ran.0.results;
                  },
                  ok result,
                )
          ]
    ]

-- The `finally` block.
unfoldable pub unlock : Request → State → State
unlock request s = record s { locks = del (lock_key request.execution_id) s.locks }

-- The text that is stored, where there is one that is not empty.
unfoldable pub stored_text : Option String → Option String
stored_text none = none
stored_text (some text) = if str_eq text "" then none else some text

unfoldable pub execute : Host → Options → Request → State → State × Result PlanError PlanResult
execute host options request s =
    let locked = record s {
      locks = set_ex s.time (lock_key request.execution_id) "running" exec_lock_ttl_seconds s.locks;
    } in
    let ran = run_plan host options request locked in
    elim (stored_text (get s.time (result_key request.execution_id) s.results)) [
      | some text ↦ elim (host.parse text) [
        | some result ↦ (s, ok (record result { cached = true }))
        | none ↦ (s, err unreadable_result)
      ]
      | none ↦ elim (get s.time (lock_key request.execution_id) s.locks) [
        | some _ ↦ (s, err already_running)
        | none ↦ (unlock request ran.0, ran.1)
      ]
    ]

-- The plan is not longer than the limit on its size, if there is one.
abbrev pub WithinSize : Options → List Call → Type 0
WithinSize options calls = elim options.max_plan_steps [
  | none ↦ Unit
  | some limit ↦ length calls ≤ limit
]

size-fits :
    (options : Options) (calls : List Call)
    → assert_plan_size options calls ≡ ok tt
    → WithinSize options calls
unfolding assert_plan_size
size-fits options calls h = ground arith

abbrev lock : Request → State → State
lock request s = record s {
  locks = set_ex s.time (lock_key request.execution_id) "running" exec_lock_ttl_seconds s.locks;
}

-- A plan that was run, not read back.
execute-fresh :
    (host : Host) (options : Options) (request : Request) (s s' : State) (r : PlanResult)
    → execute host options request s ≡ (s', ok r)
    → r.cached ≡ false
    → (unlock request (run_plan host options request (lock request s)).0 ≡ s')
      × ((run_plan host options request (lock request s)).1 ≡ ok r)
unfolding execute
execute-fresh host options request s s' r e fresh =
    elim (Option-cases (stored_text (get s.time (result_key request.execution_id) s.results))) [
      | inr (text, found) ↦ elim (Option-cases (host.parse text)) [
        | inl unreadable ↦ cc (ap (λ z. z.1) (rw (found, unreadable, execute) at e))
        | inr (old, read) ↦
            let answers = ap (λ z. z.1) (rw (found, read, execute) at e) in cc (answers, fresh)
      ]
      | inl none_yet ↦ elim (Option-cases (get s.time (lock_key request.execution_id) s.locks)) [
        | inr (holder, held) ↦ cc (ap (λ z. z.1) (rw (none_yet, held, execute) at e))
        | inl free ↦ let q = rw (none_yet, free, execute) at e in (ap (λ z. z.0) q, ap (λ z. z.1) q)
      ]
    ]

-- What `run_plan` leaves when it answers.
run_plan_lem :
    (host : Host) (options : Options) (request : Request) (s : State) (r : PlanResult)
    → (run_plan host options request s).1 ≡ ok r
    → (p : Progress) × (r ≡ plan_result request p)
      × IsAccounted options p
      × (map (λ x. x.call) p.steps ≡ planned host request)
      × WithinSize options (planned host request)
      × ((run_plan host options request s).0.results
          ≡ set_ex
              (run_plan host options request s).0.time
              (result_key request.execution_id)
              (host.stringify r)
              exec_result_ttl_seconds
              (run_calls host options request s.time 0
                (planned host request)
                (first_progress request)
                s).0.results)
unfolding run_plan first_progress
run_plan_lem host options request s r e = sized (assert_plan_size options calls) refl
  where
    calls : List Call
    calls = planned host request

    ran : State × Result PlanError Progress
    ran = run_calls host options request s.time 0 calls (first_progress request) s

    Goal : Type 0
    Goal =
        (p : Progress) × (r ≡ plan_result request p)
        × IsAccounted options p
        × (map (λ x. x.call) p.steps ≡ calls)
        × WithinSize options calls
        × ((run_plan host options request s).0.results
            ≡ set_ex (run_plan host options request s).0.time (result_key request.execution_id)
                (host.stringify r) exec_result_ttl_seconds ran.0.results)

    answered :
        assert_plan_size options calls ≡ ok tt → (a : Result PlanError Progress) → ran.1 ≡ a → Goal
    answered fits (err x) q = cc (rw (fits, q, run_plan) at e)
    answered fits (ok p) q =
        let answers : ok (plan_result request p) ≡ ok r = rw (fits, q, run_plan) at e in
        let same : plan_result request p ≡ r = cc answers in
        let start : IsAccounted options (first_progress request) = record {
          summed = refl;
          within = ground arith;
        } in
        let (done, order) =
          run_calls_lem host options request s.time 0 calls (first_progress request) p s ran.0 start
            (λ i. (ran.0, q i)) in
        (p, sym same, done, order, size-fits options calls fits, rw (fits, q, run_plan) (rw same))

    sized : (a : Result PlanError (Unit {0})) → assert_plan_size options calls ≡ a → Goal
    sized (err x) q = cc (rw (q, run_plan) at e)
    sized (ok u) q = answered q ran.1 refl

-- If `execute` answers a plan that it ran, the steps are those of the planned calls, in their order; the
-- total is the sum of their estimated costs and within the ceiling; and the plan is not longer than the
-- limit on its size.
pub execute-accounted :
    (host : Host) (options : Options) (request : Request) (s s' : State) (r : PlanResult)
    → execute host options request s ≡ (s', ok r)
    → r.cached ≡ false
    → (r.estimated_cost_total ≡ cost_of r.steps)
      × WithinCost options r.estimated_cost_total
      × (map (λ x. x.call) r.steps ≡ planned host request)
      × WithinSize options (planned host request)
unfolding plan_result
execute-accounted host options request s s' r e fresh =
    let (left, answer) = execute-fresh host options request s s' r e fresh in
    let (p, same, done, order, fits, kept) =
      run_plan_lem host options request (lock request s) r answer in
    rw same (done.summed, done.within, order, fits)

-- If no lock is held and no result is stored, then after the call the lock is not held at any time, whether the plan ends well or throws.
pub execute-released :
    (host : Host) (options : Options) (request : Request) (s : State)
    → get s.time (lock_key request.execution_id) s.locks ≡ none
    → get s.time (result_key request.execution_id) s.results ≡ none
    → (later : ℕ)
    → get later (lock_key request.execution_id) (execute host options request s).0.locks ≡ none
unfolding execute unlock get stored_text
execute-released host options request s free new later =
    let plan = run_plan host options request (lock request s) in
    rw (new, free, execute)
      (ground (
        arith,
        lookup-del (lock_key request.execution_id) (lock_key request.execution_id) plan.0.locks,
        str_eq_refl (lock_key request.execution_id),
      ))

-- After a call that ran a plan and answered, any call for the same execution that comes within the hour and
-- finds the results as they were left answers what is read of the text that was written of the result,
-- marked as cached, and changes nothing, where that text is not empty and can be read.
pub execute-cached :
    (host : Host) (options : Options) (request : Request) (s s' : State) (r q : PlanResult)
    → execute host options request s ≡ (s', ok r)
    → r.cached ≡ false
    → str_eq (host.stringify r) "" ≡ false
    → host.parse (host.stringify r) ≡ some q
    → (other : Request) (later : State) → other.execution_id ≡ request.execution_id
    → later.results ≡ s'.results
    → later.time < s'.time + exec_result_ttl_seconds * 1000
    → execute host options other later ≡ (later, ok (record q { cached = true }))
unfolding execute unlock stored_text
execute-cached host options request s s' r q e fresh text read other later same kept soon =
    let (left, answer) = execute-fresh host options request s s' r e fresh in
    let (p, is_p, done, order, fits, stored) =
      run_plan_lem host options request (lock request s) r answer in
    let at : later.results
        ≡ set_ex s'.time (result_key other.execution_id) (host.stringify r) exec_result_ttl_seconds
            (run_calls host options request s.time 0 (planned host request) (first_progress request)
              (lock request s)).0.results =
      kept ∙ sym (ap (λ u. u.results) left) ∙ stored ∙ (λ i.
        set_ex ((left i).time) (result_key (sym same i)) (host.stringify r) exec_result_ttl_seconds
          (run_calls host options request s.time 0 (planned host request) (first_progress request)
            (lock request s)).0.results) in
    let found : get later.time (result_key other.execution_id) later.results
        ≡ some (host.stringify r) =
      rw at (
        get-set_ex s'.time later.time (result_key other.execution_id) (host.stringify r)
          exec_result_ttl_seconds _ soon) in
    rw (found, text, read, execute)
