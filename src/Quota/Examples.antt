-- ===== src/Quota/Examples.antt =====
-- A tenant with three rows, read by pages of one, and charged.
use birthub_360_innovation.Base.{
  ℕ, suc, String, Bool, true, false, [], ◌∷◌, none, ◌≡◌, ◌≤◌, refl, subst, inl, inr, arith, ltb,
  Bool-cases, str_eq, eq_iff, count, length,
}
use birthub_360_innovation.Runner.{ResourceType, ai_prompts, emails_sent, storage_gb}
use birthub_360_innovation.Quota.{QuotaRow, Store, Host}
use birthub_360_innovation.Quota.Consume.{check_and_consume, resolve_tenant_id}
use birthub_360_innovation.Quota.Within.{Outcome, check_and_consume_lem}
use birthub_360_innovation.Quota.Page.{ids, tenant_rows, order_by_id, insert_ordered, all_pages}
use birthub_360_innovation.Quota.Pages.{all_pages_lem}

abbrev row : String → ResourceType → QuotaRow
row id resource_type = record {
  id = id;
  tenant_id = "t";
  resource_type = resource_type;
  period = "MONTHLY-2026-11";
  count = 4;
  limit = 7;
  reset_at = 99;
}

abbrev store : Store
store = record {
  organizations = record { id = "o"; slug = none; tenant_id = "t" } ∷ [];
  quotas = row "b" ai_prompts ∷ row "a" emails_sent ∷ row "c" storage_gb ∷ [];
}

abbrev host : Host
host = record {
  plan_limits = λ t. none;
  utc_year = λ time. 2026;
  utc_month = λ time. 10;
  utc_date = λ year month. 99;
}

check_and_consume_lem_example :
    Outcome host 5 "n" "o" ai_prompts store 3
      (check_and_consume host 5 "n" "o" ai_prompts 3 store).0.quotas
      (check_and_consume host 5 "n" "o" ai_prompts 3 store).1
check_and_consume_lem_example = check_and_consume_lem host 5 "n" "o" ai_prompts store 3

-- The order of three ids.
abbrev place : String → ℕ
place id = elim (str_eq id "a") [ true ↦ 0 | false ↦ elim (str_eq id "b") [ true ↦ 1 | false ↦ 2 ] ]

abbrev before : String → String → Bool
before x y = ltb (place x) (place y)

ordered :
    tenant_rows before "o" store
    ≡ row "a" emails_sent ∷ row "b" ai_prompts ∷ row "c" storage_gb ∷ []
unfolding tenant_rows order_by_id insert_ordered resolve_tenant_id
ordered = refl

once : (v : String) → count v (ids (tenant_rows before "o" store)) ≤ 1
once v = rw ordered (elim (Bool-cases (str_eq "a" v)) [
  | inl a ↦ subst (λ x. count x ("a" ∷ "b" ∷ "c" ∷ []) ≤ 1) ((eq_iff "a" v).0 a) (ground arith)
  | inr not_a ↦ elim (Bool-cases (str_eq "b" v)) [
    | inl b ↦ subst (λ x. count x ("a" ∷ "b" ∷ "c" ∷ []) ≤ 1) ((eq_iff "b" v).0 b) (ground arith)
    | inr not_b ↦ ground (arith, not_a, not_b)
  ]
])

filled : count "" (ids (tenant_rows before "o" store)) ≡ 0
filled = rw ordered refl

all_pages_lem_example :
    all_pages before "o" 1 store (suc (length (tenant_rows before "o" store))) none
    ≡ tenant_rows before "o" store
all_pages_lem_example = all_pages_lem before "o" 0 store once filled
