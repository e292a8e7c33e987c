-- ===== src/Quota/Consume.antt =====
-- The functions of the file and the methods of `QuotaService`.
use birthub_360_innovation.Base.{
  ℕ, ◌+◌, ◌^◌, ◌/◌, String, Bool, ◌&&◌, ◌||◌, [], ◌∷◌, ◌++◌, none, some, ltb, ◌==◌, if◌then◌else◌,
  str_eq, str_append, max, decimal, leb, any, find, update_where,
}
use birthub_360_innovation.Base.Int.{pos, negsuc, Number, finite}
use birthub_360_innovation.Base.Result.{Result, ok, err}
use birthub_360_innovation.Auth.{Organization}
use birthub_360_innovation.Runner.{
  ResourceType, ai_prompts, api_requests, emails_sent, storage_gb, workflow_runs,
}
use birthub_360_innovation.Workflows.Service.{read_numeric_plan_limit}
use birthub_360_innovation.Quota.{QuotaRow, Store, QuotaError, exceeded, refused, Host}

abbrev pub default_limit : ResourceType → ℕ
default_limit ai_prompts = 1000
default_limit api_requests = 5000
default_limit emails_sent = 2500
default_limit storage_gb = 100
default_limit workflow_runs = 10000

abbrev pub plan_limit_key : ResourceType → String
plan_limit_key ai_prompts = "aiPrompts"
plan_limit_key api_requests = "apiRequests"
plan_limit_key emails_sent = "emails"
plan_limit_key storage_gb = "storageGb"
plan_limit_key workflow_runs = "workflows"

abbrev pub resource_number : ResourceType → ℕ
resource_number emails_sent = 0
resource_number ai_prompts = 1
resource_number workflow_runs = 2
resource_number storage_gb = 3
resource_number api_requests = 4

unfoldable pub resolve_tenant_id : String → Store → String
resolve_tenant_id reference s =
    elim (find (λ (o : Organization). str_eq o.id reference || str_eq o.tenant_id reference)
      s.organizations) [ none ↦ reference | some o ↦ o.tenant_id ]

-- `String(n).padStart(2, "0")`
abbrev pub two_digits : ℕ → String
two_digits n = if ltb n 10 then str_append "0" (decimal n) else decimal n

unfoldable pub current_monthly_period : Host → ℕ → String
current_monthly_period host time = str_append "MONTHLY-" (
    str_append (decimal (host.utc_year time))
      (str_append "-" (two_digits (host.utc_month time + 1))))

unfoldable pub next_monthly_reset : Host → ℕ → ℕ
next_monthly_reset host time = host.utc_date (host.utc_year time) (host.utc_month time + 1)

-- `Number.MAX_SAFE_INTEGER`
abbrev pub max_safe_integer : ℕ
max_safe_integer = 9007199254740991

-- `Math.max(1, Math.floor(limit))` of a finite limit; a limit that is none is the greatest integer.
abbrev pub whole_limit : Number → ℕ
whole_limit (finite (pos m) k) = max 1 (m / 2 ^ k)
whole_limit (finite (negsuc m) k) = 1
whole_limit _ = max_safe_integer

unfoldable pub resolve_limit : Host → String → ResourceType → ℕ
resolve_limit host reference resource_type = elim (host.plan_limits reference) [
  | none ↦ default_limit resource_type
  | some limits ↦
      whole_limit (
        read_numeric_plan_limit limits (plan_limit_key resource_type) (default_limit resource_type))
]

abbrev pub is_quota : String → ResourceType → String → QuotaRow → Bool
is_quota period resource_type tenant_id q =
    str_eq q.period period
    && resource_number q.resource_type == resource_number resource_type
    && str_eq q.tenant_id tenant_id

-- The greatest number that the columns `limit` and `count` take.
abbrev pub max_int : ℕ
max_int = 2147483647

abbrev pub fits : ℕ → Bool
fits n = leb n max_int

abbrev pub is_known : String → Store → Bool
is_known tenant_id s = any (λ (o : Organization). str_eq o.tenant_id tenant_id) s.organizations

-- The row of the month, with the limit of the day: it is created, or its limit is brought up to date. The
-- database refuses a limit that does not fit its column, and a new row for a tenant that is not there.
unfoldable pub current_quota :
    Host → ℕ → String → String → ResourceType → Store → Result QuotaError (Store × QuotaRow)
current_quota host time new_id reference resource_type s =
    let tenant_id = resolve_tenant_id reference s in
    let period = current_monthly_period host time in
    let limit = resolve_limit host reference resource_type in
    elim (find (is_quota period resource_type tenant_id) s.quotas) [
      | none ↦
          let new : QuotaRow = record {
            id = new_id;
            tenant_id = tenant_id;
            resource_type = resource_type;
            period = period;
            count = 0;
            limit = limit;
            reset_at = next_monthly_reset host time;
          } in
          if fits limit && is_known tenant_id s
          then ok (record s { quotas = s.quotas ++ new ∷ [] }, new)
          else err refused
      | some q ↦
          if q.limit == limit
          then ok (s, q)
          else if fits limit
          then ok (
            record s {
              quotas =
                  update_where (λ x. str_eq x.id q.id) (λ x. record x { limit = limit }) s.quotas;
            },
            record q { limit = limit },
          )
          else err refused
    ]

-- A throw leaves the row that was created, or its new limit.
unfoldable pub check_and_consume :
    Host → ℕ → String → String → ResourceType → ℕ → Store → Store × Result QuotaError QuotaRow
check_and_consume host time new_id reference resource_type amount s =
    elim (current_quota host time new_id reference resource_type s) [
      | err e ↦ (s, err e)
      | ok (found, quota) ↦
          if ltb quota.limit (quota.count + amount)
          then (
            found,
            err (
                exceeded (record {
                  current = quota.count;
                  limit = quota.limit;
                  reset_at = quota.reset_at;
                  resource_type = resource_type;
                  tenant_id = resolve_tenant_id reference s;
                })),
          )
          else (
            record found {
              quotas =
                  update_where (λ x. str_eq x.id quota.id)
                    (λ x. record x { count = x.count + amount }) found.quotas;
            },
            ok (record quota { count = quota.count + amount }),
          )
    ]
