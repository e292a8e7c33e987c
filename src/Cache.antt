-- ===== src/Cache.antt =====
-- apps/api/src/common/cache/cache-store.ts: the kinds of stores, the state of the module, and what it
-- takes from the Redis client. Times are in milliseconds.
pub mod Store
pub mod Tenant
pub mod Refine
pub mod Fresh
mod Examples
use birthub_360_innovation.Base.{ℕ, String, Bool, List, Option, Dict}
use birthub_360_innovation.Base.Result.{Result}

pub record Entry : Type 0 where
  pub expires_at : ℕ
  pub value : String

-- The Redis client, of which `R` is the state. Each command may fail; the failure is a text.
pub record Client (R : Type 0) : Type 0 where
  pub new : String → R
  pub is_waiting : R → Bool
  pub connect : R → R × Result String (Unit {0})
  pub get : ℕ → String → R → R × Result String (Option String)
  pub set_ex : ℕ → String → String → ℕ → R → R × Result String (Unit {0})
  pub del : ℕ → List String → R → R × Result String ℕ

-- `cacheStore`: the in-memory store is one and the same whenever it is chosen.
pub data Chosen (R : Type 0) : Type 0 where
  noop in_memory : Chosen R
  redis : R → Chosen R

-- The variables of the module: `cacheStore`, `strictCacheMode` and the entries of `inMemoryStore`.
pub record State (R : Type 0) : Type 0 where
  pub chosen : Chosen R
  pub strict : Bool
  pub entries : Dict Entry

pub data CacheError : Type 0 where
  configuration_invalid : CacheError
  delete_failed read_failed write_failed : String → CacheError
