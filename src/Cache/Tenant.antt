-- ===== src/Cache/Tenant.antt =====
-- apps/api/src/common/cache/tenant-cache.ts: tenants in the cache under each of their names.
use birthub_360_innovation.Base.{
  ℕ, ◌*◌, String, List, [], ◌∷◌, map, Option, none, some, if◌then◌else◌, str_eq, str_append,
  contains,
}
use birthub_360_innovation.Base.Result.{Result, ok, err}
use birthub_360_innovation.Cache.{Client, State, CacheError}
use birthub_360_innovation.Cache.Store.{delete_cache_keys, read_cache_value, write_cache_value}

pub record CachedTenant : Type 0 where
  pub id : String
  pub slug : Option String
  pub tenant_id : String

-- The functions of the language: `trim`, `toLowerCase`, `JSON.stringify` of a tenant and `JSON.parse`,
-- of which `none` is a text that is no JSON object, or one whose fields are no such texts.
pub record Language : Type 0 where
  pub trim : String → String
  pub to_lower_case : String → String
  pub stringify : CachedTenant → String
  pub parse : String → Option CachedTenant

abbrev pub tenant_cache_ttl_seconds : ℕ
tenant_cache_ttl_seconds = 5 * 60

unfoldable pub normalize_reference : Language → String → String
normalize_reference lang reference = lang.to_lower_case (lang.trim reference)

unfoldable pub build_tenant_cache_key : Language → String → String
build_tenant_cache_key lang reference = str_append "tenant:" (normalize_reference lang reference)

-- The names that are not empty.
unfoldable pub filled_names : List (Option String) → List String
filled_names [] = []
filled_names (none ∷ names) = filled_names names
filled_names (some name ∷ names) =
    let more = filled_names names in if str_eq name "" then more else name ∷ more

unfoldable pub build_cache_keys_from_tenant : Language → CachedTenant → List String
build_cache_keys_from_tenant lang tenant =
    map (build_tenant_cache_key lang)
      (filled_names (some tenant.id ∷ tenant.slug ∷ some tenant.tenant_id ∷ []))

abbrev pub first_error :
    Result CacheError (Unit {0}) → Result CacheError (Unit {0}) → Result CacheError (Unit {0})
first_error (ok done) later = later
first_error (err thrown) later = err thrown

module _ {R : Type 0} (lang : Language) (client : Client R) where
  -- The writes are begun one after the other; all are made, and the first failure is thrown.
  unfoldable pub write_all :
      ℕ → List String → String → State R → State R × Result CacheError (Unit {0})
  write_all time [] payload s = (s, ok tt)
  write_all time (key ∷ keys) payload s =
      let (written, result) =
        write_cache_value client time key payload tenant_cache_ttl_seconds s in
      let (left, later) = write_all time keys payload written in (left, first_error result later)

  unfoldable pub cache_tenant : ℕ → CachedTenant → State R → State R × Result CacheError (Unit {0})
  cache_tenant time tenant s =
      write_all time (build_cache_keys_from_tenant lang tenant) (lang.stringify tenant) s

  -- A tenant without an id, or without a tenant's id, is none.
  abbrev pub with_ids : Option CachedTenant → Option CachedTenant
  with_ids none = none
  with_ids (some tenant) =
      if str_eq tenant.id "" then none else if str_eq tenant.tenant_id "" then none else some tenant

  unfoldable pub parse_tenant : Option String → Option CachedTenant
  parse_tenant none = none
  parse_tenant (some raw) = if str_eq raw "" then none else with_ids (lang.parse raw)

  abbrev pub parsed :
      State R × Result CacheError (Option String)
      → State R × Result CacheError (Option CachedTenant)
  parsed (s, ok raw) = (s, ok (parse_tenant raw))
  parsed (s, err thrown) = (s, err thrown)

  unfoldable pub get_cached_tenant :
      ℕ → String → State R → State R × Result CacheError (Option CachedTenant)
  get_cached_tenant time reference s =
      parsed (read_cache_value client time (build_tenant_cache_key lang reference) s)

  -- The keys of the references that are not blank, each once, in the order of their first place.
  unfoldable pub reference_keys : List (Option String) → List String → List String
  reference_keys [] seen = []
  reference_keys (none ∷ references) seen = reference_keys references seen
  reference_keys (some reference ∷ references) seen =
      let key = build_tenant_cache_key lang reference in
      let skipped = reference_keys references seen in
      let more = reference_keys references (key ∷ seen) in
      if str_eq (lang.trim reference) ""
      then skipped
      else if contains seen key
      then skipped
      else key ∷ more

  unfoldable pub invalidate_tenant_cache :
      ℕ → List (Option String) → State R → State R × Result CacheError (Unit {0})
  invalidate_tenant_cache time references s =
      delete_cache_keys client time (reference_keys references []) s
