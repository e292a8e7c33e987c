-- ===== src/Runner/Step.antt =====
-- `processExecutionJob`, the body of its `try` block up to the output of the step: the results of
-- earlier steps, the cache, the shared budget and `executeStep`.
use birthub_360_innovation.Base.{
  ℕ, ◌-◌, ◌*◌, String, Bool, true, false, ◌&&◌, not, List, [], ◌∷◌, Option, none, some, ltb, leb,
  if◌then◌else◌, get_or, str_eq, take, filter, find,
}
use birthub_360_innovation.Base.Json.{
  Value, str, obj, Fields, field, end, member, is_text, is_null, is_undefined,
}
use birthub_360_innovation.Base.Result.{Result, ok, err}
use birthub_360_innovation.Dag.{StepType, agent_execute, http_request}
use birthub_360_innovation.Runner.{
  Store, StepResult, StepStatus, WorkflowStep, JobPayload, Host, StepContext,
}
use birthub_360_innovation.Runner.Budget.{consume_shared_agent_budget}

abbrev pub status_text : StepStatus → String
status_text StepStatus.success = "SUCCESS"
status_text StepStatus.failed = "FAILED"
status_text StepStatus.skipped = "SKIPPED"
status_text StepStatus.waiting = "WAITING"

-- `fields[key] = value` on an object: a key that is there keeps its place.
unfoldable pub set_field : String → Value → Fields → Fields
set_field key value end = field key value end
set_field key value (field k v fs) =
    if str_eq k key then field k value fs else field k v (set_field key value fs)

-- `Object.fromEntries` over the rows, the oldest first.
unfoldable pub entries : List StepResult → Fields → Fields
entries [] fs = fs
entries (r ∷ rs) fs = entries rs (
    set_field r.step_key
      (obj (
        field "input" r.input
          (field "output" r.output (field "status" (str (status_text r.status)) end))))
      fs)

unfoldable pub steps_context : JobPayload → List StepResult → Value
steps_context payload results =
    obj (entries (filter (λ r. str_eq r.execution_id payload.execution_id) results) end)

unfoldable pub step_input_hash : Host → WorkflowStep → Value → JobPayload → String
step_input_hash host step context payload = host.sha256 (
    host.stringify (
      obj (
        field "stepKey" (str step.key)
          (field "stepsContext" context (field "triggerPayload" payload.trigger_payload end)))))

abbrev pub is_success : StepStatus → Bool
is_success StepStatus.success = true
is_success _ = false

-- `orderBy: { finishedAt: "desc" }`, rows of one time in the order of their creation.
unfoldable pub insert_desc : StepResult → List StepResult → List StepResult
insert_desc r [] = r ∷ []
insert_desc r (x ∷ xs) =
    if leb x.finished_at r.finished_at then r ∷ x ∷ xs else x ∷ insert_desc r xs

unfoldable pub sort_desc : List StepResult → List StepResult
sort_desc [] = []
sort_desc (r ∷ rs) = insert_desc r (sort_desc rs)

-- The rows that the query for the cache answers. `cutoff` is the time less the step's TTL.
unfoldable pub cache_candidates : ℕ → WorkflowStep → JobPayload → List StepResult → List StepResult
cache_candidates cutoff step payload results = take 10 (
    sort_desc (
      filter
        (λ r.
          leb cutoff r.finished_at
          && is_success r.status
          && str_eq r.step_id step.id
          && str_eq r.workflow_id payload.workflow_id)
        results))

unfoldable pub is_cache_hit : String → StepResult → Bool
is_cache_hit hash r = is_text (member "_cacheHash" r.input) hash && not (is_null r.output)

abbrev pub is_cacheable : StepType → Bool
is_cacheable agent_execute = true
is_cacheable http_request = true
is_cacheable _ = false

abbrev pub is_agent_step : StepType → Bool
is_agent_step agent_execute = true
is_agent_step _ = false

-- The output that the cache supplies. `time` is `Date.now()`.
unfoldable pub cached_output :
    ℕ → String → WorkflowStep → JobPayload → List StepResult → Option StepResult
cached_output time hash step payload results =
    let ttl = get_or step.cache_ttl_seconds 0 in
    if ltb 0 ttl && is_cacheable step.type
    then find (is_cache_hit hash) (cache_candidates (time - ttl * 1000) step payload results)
    else none

-- The step is run: an agent's step is charged to the shared budget first. A step that throws leaves
-- the charge.
unfoldable pub run_step :
    Host → WorkflowStep → StepContext → Store → Store × Result (Option String) Value
run_step host step context s =
    if is_agent_step step.type
    then elim (consume_shared_agent_budget context.payload.tenant_id s) [
      | ok s' ↦ (s', host.execute_step step context)
      | err e ↦ (s, err e)
    ]
    else (s, host.execute_step step context)

unfoldable pub compute_output :
    Host → ℕ → String → WorkflowStep → StepContext → Store → Store × Result (Option String) Value
compute_output host time hash step context s =
    elim (cached_output time hash step context.payload s.results) [
      | some hit ↦
          if is_undefined hit.output then run_step host step context s else (s, ok hit.output)
      | none ↦ run_step host step context s
    ]
