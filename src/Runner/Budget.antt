-- ===== src/Runner/Budget.antt =====
-- `consumeSharedAgentBudget`: the tenant's usage row with the latest reset is counted up.
use birthub_360_innovation.Base.{
  ◌+◌, ◌≤◌, ◌<◌, String, Bool, true, false, ◌&&◌, List, [], ◌∷◌, map, Option, none, some, ◌≡◌,
  subst, inl, inr, arith, ltb, leb, if◌then◌else◌, Bool-cases, Option-cases, str_eq, filter, All,
}
use birthub_360_innovation.Base.Result.{Result, ok, err}
use birthub_360_innovation.Runner.{Store, QuotaUsage, ResourceType, ai_prompts}

abbrev pub is_prompts : ResourceType → Bool
is_prompts ai_prompts = true
is_prompts _ = false

-- `findFirst` with the latest reset first. Of rows with one reset the first created is taken.
unfoldable pub latest : List QuotaUsage → Option QuotaUsage
latest [] = none
latest (q ∷ qs) = elim (latest qs) [
  | none ↦ some q
  | some best ↦ if ltb q.reset_at best.reset_at then some best else some q
]

unfoldable pub find_quota : String → List QuotaUsage → Option QuotaUsage
find_quota tenant_id qs =
    latest (filter (λ q. is_prompts q.resource_type && str_eq q.tenant_id tenant_id) qs)

unfoldable pub count_up : String → List QuotaUsage → List QuotaUsage
count_up id = map (λ q. if str_eq q.id id then record q { count = q.count + 1 } else q)

-- The store afterwards, or the message of the error.
unfoldable pub consume_shared_agent_budget : String → Store → Result (Option String) Store
consume_shared_agent_budget tenant_id s = elim (find_quota tenant_id s.quotas) [
  | none ↦ ok s
  | some row ↦
      if leb row.limit row.count
      then err (some "SHARED_RATE_LIMIT_EXCEEDED")
      else ok (record s { quotas = count_up row.id s.quotas })
]

-- No count is above its limit.
abbrev pub WithinLimits : List QuotaUsage → Type 0
WithinLimits qs = All (λ q. q.count ≤ q.limit) qs

-- Rows with one id agree on their count and limit.
abbrev pub IdsAgree : QuotaUsage → List QuotaUsage → Type 0
IdsAgree row qs =
    All (λ q. str_eq q.id row.id ≡ true → (q.count ≡ row.count) × (q.limit ≡ row.limit)) qs

count_up-WithinLimits :
    (row : QuotaUsage) (qs : List QuotaUsage)
    → row.count < row.limit
    → IdsAgree row qs
    → WithinLimits qs
    → WithinLimits (count_up row.id qs)
unfolding count_up
count_up-WithinLimits row [] lt agree h = tt
count_up-WithinLimits row (q ∷ qs) lt agree h =
    (ground (arith, agree.0), count_up-WithinLimits row qs lt agree.1 h.1)

-- If the rows with the id of the row that is counted up agree with it, and no count is above its limit,
-- then no count is above its limit after a call that returns.
pub consume-WithinLimits :
    (tenant_id : String) (s s' : Store)
    → ((row : QuotaUsage) → find_quota tenant_id s.quotas ≡ some row → IdsAgree row s.quotas)
    → WithinLimits s.quotas
    → consume_shared_agent_budget tenant_id s ≡ ok s'
    → WithinLimits s'.quotas
unfolding consume_shared_agent_budget
consume-WithinLimits tenant_id s s' unique h e =
    elim (Option-cases (find_quota tenant_id s.quotas)) [
      | inl missing ↦
          let step : ok s ≡ ok s' = rw (missing, consume_shared_agent_budget) at e in
          let same : s ≡ s' = cc step in subst (λ x. WithinLimits x.quotas) same h
      | inr (row, found) ↦ elim (Bool-cases (leb row.limit row.count)) [
        | inl full ↦ cc (rw (found, full, consume_shared_agent_budget) at e)
        | inr room ↦
            let step : ok (record s { quotas = count_up row.id s.quotas }) ≡ ok s' =
              rw (found, room, consume_shared_agent_budget) at e in
            let same : record s { quotas = count_up row.id s.quotas } ≡ s' = cc step in
            subst (λ x. WithinLimits x.quotas) same
              (count_up-WithinLimits row s.quotas (ground arith) (unique row found) h)
      ]
    ]
