-- ===== src/Quota.antt =====
-- apps/api/src/services/QuotaService.ts: what a tenant has used of a resource in a month. Rows are kept in
-- the order of their creation; `id` is the primary key. Times are in milliseconds.
pub mod Consume
pub mod Within
pub mod Page
pub mod Pages
mod Examples
use birthub_360_innovation.Base.{ℕ, String, List, Option}
use birthub_360_innovation.Base.Json.{Value}
use birthub_360_innovation.Base.Result.{Result}
use birthub_360_innovation.Auth.{Organization}
use birthub_360_innovation.Runner.{ResourceType}

pub record QuotaRow : Type 0 where
  pub id : String
  pub tenant_id : String
  pub resource_type : ResourceType
  pub period : String
  pub count : ℕ
  pub limit : ℕ
  pub reset_at : ℕ

pub record Store : Type 0 where
  pub organizations : List Organization
  pub quotas : List QuotaRow

-- `ExceededQuotaError`.
pub record ExceededQuota : Type 0 where
  pub current : ℕ
  pub limit : ℕ
  pub reset_at : ℕ
  pub resource_type : ResourceType
  pub tenant_id : String

-- What `checkAndConsume` throws: its own error, or that of the database which refuses a row.
pub data QuotaError : Type 0 where
  exceeded : ExceededQuota → QuotaError
  refused : QuotaError

-- What the file takes from elsewhere: the limits of a tenant's plan, where reading them may throw; the
-- year and the month, from 0, of a time in UTC; and the time at which a month begins, where month 12 of a
-- year is the first of the next.
pub record Host : Type 0 where
  pub plan_limits : String → Option Value
  pub utc_year : ℕ → ℕ
  pub utc_month : ℕ → ℕ
  pub utc_date : ℕ → ℕ → ℕ
