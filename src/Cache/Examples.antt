-- ===== src/Cache/Examples.antt =====
-- The cache at work, in memory.
use birthub_360_innovation.Base.{true, false, List, [], ◌∷◌, none, some, ◌≡◌, refl, arith}
use birthub_360_innovation.Base.Result.{ok, err}
use birthub_360_innovation.Cache.{Client}
use birthub_360_innovation.Cache.Store.{configure_cache_store, initial}
use birthub_360_innovation.Cache.Refine.{
  Event, read, write, delete, answers, specified, answers-configured, in_memory_state,
}
use birthub_360_innovation.Cache.Tenant.{
  CachedTenant, Language, cache_tenant, get_cached_tenant, invalidate_tenant_cache,
  build_cache_keys_from_tenant, build_tenant_cache_key, normalize_reference, filled_names,
}
use birthub_360_innovation.Cache.Fresh.{
  get_cached_tenant-cache_tenant, get_cached_tenant-invalidate,
}

-- A Redis that always fails.
abbrev client : Client Unit
client = record {
  new = λ url. tt;
  is_waiting = λ r. true;
  connect = λ r. (r, err "refused");
  get = λ time key r. (r, err "refused");
  set_ex = λ time key value ttl r. (r, err "refused");
  del = λ time keys r. (r, err "refused");
}

abbrev events : List Event
events =
    (1, write "a" "x" 5)
    ∷ (2, read "a")
    ∷ (2, read "b")
    ∷ (6000, read "a")
    ∷ (6001, write "a" "y" 5)
    ∷ (6002, delete ("a" ∷ []))
    ∷ (6003, read "a")
    ∷ []

answers-configured_example :
    answers client events (configure_cache_store client none "test" initial).0
    ≡ ok (specified [] events)
answers-configured_example = answers-configured client "test" events refl (
  ground arith,
  (
    ground arith,
    (ground arith, (ground arith, (ground arith, (ground arith, (ground arith, tt))))),
  ),
)

abbrev tenant : CachedTenant
tenant = record { id = "o"; slug = some "acme"; tenant_id = "t" }

-- Texts without blanks or capitals, and one tenant.
abbrev lang : Language
lang = record {
  trim = λ s. s;
  to_lower_case = λ s. s;
  stringify = λ t. "{}";
  parse = λ s. some tenant;
}

get_cached_tenant-cache_tenant_example :
    (get_cached_tenant lang client 200000 "acme"
      (cache_tenant lang client 7 tenant (in_memory_state client false [])).0).1
    ≡ ok (some tenant)
unfolding build_cache_keys_from_tenant build_tenant_cache_key normalize_reference filled_names
get_cached_tenant-cache_tenant_example =
    get_cached_tenant-cache_tenant lang client 7 200000 tenant "acme" false [] refl refl refl refl
      refl (omega arith)

get_cached_tenant-invalidate_example :
    (get_cached_tenant lang client 9 "acme"
      (invalidate_tenant_cache lang client 8
        (none ∷ some "acme" ∷ [])
        (in_memory_state client false [])).0).1
    ≡ ok none
unfolding build_tenant_cache_key normalize_reference
get_cached_tenant-invalidate_example =
    get_cached_tenant-invalidate lang client 8 9 (none ∷ some "acme" ∷ []) "acme" false [] refl
