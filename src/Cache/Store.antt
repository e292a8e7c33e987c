-- ===== src/Cache/Store.antt =====
-- The stores and the functions of apps/api/src/common/cache/cache-store.ts. Each call answers the state
-- that it leaves, and what it returns or throws.
use birthub_360_innovation.Base.{
  ℕ, ◌+◌, ◌*◌, String, false, List, [], ◌∷◌, Option, none, some, leb, ◌==◌, if◌then◌else◌, bit,
  is_some, str_eq, length, Dict, lookup, insert, remove,
}
use birthub_360_innovation.Base.Result.{Result, ok, err}
use birthub_360_innovation.Dag.Build.{is_blank}
use birthub_360_innovation.Cache.{
  Entry, Client, noop, in_memory, redis, State, CacheError, configuration_invalid, delete_failed,
  read_failed, write_failed,
}

-- `InMemoryCacheStore`.
unfoldable pub memory_del : List String → Dict Entry → Dict Entry × ℕ
memory_del [] m = (m, 0)
memory_del (key ∷ keys) m =
    let rest = memory_del keys (remove key m) in (rest.0, bit (is_some (lookup key m)) + rest.1)

unfoldable pub memory_get : ℕ → String → Dict Entry → Dict Entry × Option String
memory_get time key m = elim (lookup key m) [
  | none ↦ (m, none)
  | some entry ↦ if leb entry.expires_at time then (remove key m, none) else (m, some entry.value)
]

unfoldable pub memory_set : ℕ → String → String → ℕ → Dict Entry → Dict Entry
memory_set time key value ttl_seconds m =
    insert key (record { expires_at = time + ttl_seconds * 1000; value = value }) m

module _ {R : Type 0} where
  -- `RedisCacheStore`: the client is connected on first use, and a failure to connect is one of the call.
  unfoldable pub connect_if_needed : Client R → R → R × Result String (Unit {0})
  connect_if_needed client r = if client.is_waiting r then client.connect r else (r, ok tt)

  unfoldable pub connected :
      {A : Type 0} → Client R → (R → R × Result String A) → R → R × Result String A
  connected client command r =
      let (left, result) = connect_if_needed client r in
      elim result [ ok done ↦ command left | err thrown ↦ (left, err thrown) ]

  unfoldable pub redis_del : Client R → ℕ → List String → R → R × Result String ℕ
  redis_del client time keys r =
      if length keys == 0 then (r, ok 0) else connected client (client.del time keys) r

  abbrev pub with_redis : {A : Type 0} → State R → R × Result String A → State R × Result String A
  with_redis s (r, result) = (record s { chosen = redis r }, result)

  -- A call of the store that is chosen.
  unfoldable pub store_del : Client R → ℕ → List String → State R → State R × Result String ℕ
  store_del client time keys s = elim s.chosen [
    | noop ↦ (s, ok 0)
    | in_memory ↦
        let (left, deleted) = memory_del keys s.entries in (record s { entries = left }, ok deleted)
    | redis r ↦ with_redis s (redis_del client time keys r)
  ]

  unfoldable pub store_get :
      Client R → ℕ → String → State R → State R × Result String (Option String)
  store_get client time key s = elim s.chosen [
    | noop ↦ (s, ok none)
    | in_memory ↦
        let (left, found) = memory_get time key s.entries in (record s { entries = left }, ok found)
    | redis r ↦ with_redis s (connected client (client.get time key) r)
  ]

  unfoldable pub store_set :
      Client R → ℕ → String → String → ℕ → State R → State R × Result String (Unit {0})
  store_set client time key value ttl_seconds s = elim s.chosen [
    | noop ↦ (s, ok tt)
    | in_memory ↦ (record s { entries = memory_set time key value ttl_seconds s.entries }, ok tt)
    | redis r ↦ with_redis s (connected client (client.set_ex time key value ttl_seconds) r)
  ]

  abbrev pub use_fallback_store : State R → State R
  use_fallback_store s = record s { chosen = in_memory }

  -- A failure is thrown in strict mode; otherwise the call answers the default, and from then on the
  -- store is the one in memory.
  unfoldable pub or_fallback :
      {A : Type 0}
      → (String → CacheError)
      → A
      → State R × Result String A
      → State R × Result CacheError A
  or_fallback failed default (s, ok a) = (s, ok a)
  or_fallback failed default (s, err thrown) =
      if s.strict then (s, err (failed thrown)) else (use_fallback_store s, ok default)

  -- The variables as the module begins.
  abbrev pub initial : State R
  initial = record { chosen = noop; strict = false; entries = [] }

  unfoldable pub configure_cache_store :
      Client R → Option String → String → State R → State R × Result CacheError (Unit {0})
  configure_cache_store client redis_url node_env s =
      let moded : State R = record s { strict = str_eq node_env "production" } in
      elim redis_url [
        | none ↦
            if moded.strict
            then (moded, err configuration_invalid)
            else (use_fallback_store moded, ok tt)
        | some url ↦
            if is_blank url
            then if moded.strict
              then (moded, err configuration_invalid)
              else (use_fallback_store moded, ok tt)
            else (record moded { chosen = redis (client.new url) }, ok tt)
      ]

  abbrev pub deleted_any : State R × Result String ℕ → State R × Result String (Unit {0})
  deleted_any (s, ok n) = (s, ok tt)
  deleted_any (s, err thrown) = (s, err thrown)

  unfoldable pub delete_cache_keys :
      Client R → ℕ → List String → State R → State R × Result CacheError (Unit {0})
  delete_cache_keys client time keys s =
      if length keys == 0
      then (s, ok tt)
      else or_fallback delete_failed tt (deleted_any (store_del client time keys s))

  unfoldable pub read_cache_value :
      Client R → ℕ → String → State R → State R × Result CacheError (Option String)
  read_cache_value client time key s = or_fallback read_failed none (store_get client time key s)

  unfoldable pub write_cache_value :
      Client R → ℕ → String → String → ℕ → State R → State R × Result CacheError (Unit {0})
  write_cache_value client time key value ttl_seconds s =
      or_fallback write_failed tt (store_set client time key value ttl_seconds s)
