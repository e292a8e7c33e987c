-- ===== src/Cache/Refine.antt =====
-- What the in-memory store promises: a read answers the value of the latest write to its key that no
-- deletion has followed, as long as the time to live of the value is not over. The store, which forgets
-- what has expired when it is read, answers as the whole history says.
use birthub_360_innovation.Base.{
  ℕ, ◌+◌, ◌*◌, ◌≤◌, String, Bool, false, List, [], ◌∷◌, Option, none, some, ◌≡◌, refl, ap, ◌∙◌, inl,
  inr, arith, ltb, leb, ◌==◌, if◌then◌else◌, Bool-cases, Option-cases, str_eq, eq_iff, length,
  contains, Dict, lookup, lookup-insert, remove, lookup-remove,
}
use birthub_360_innovation.Base.Result.{Result, ok, err}
use birthub_360_innovation.Cache.{Entry, Client, in_memory, State, CacheError}
use birthub_360_innovation.Cache.Store.{
  configure_cache_store, initial, memory_del, memory_get, memory_set, store_del, store_get,
  store_set, or_fallback, delete_cache_keys, read_cache_value, write_cache_value,
}

pub data Command : Type 0 where
  read : String → Command
  write : String → String → ℕ → Command
  delete : List String → Command

-- A command at a time.
abbrev pub Event : Type 0
Event = ℕ × Command

-- The answer to a read at a time, by the events before it, the latest first.
unfoldable pub remembered : List Event → String → ℕ → Option String
remembered [] key now = none
remembered ((time, read other) ∷ es) key now = remembered es key now
remembered ((time, write other value ttl_seconds) ∷ es) key now =
    let earlier = remembered es key now in
    if str_eq other key
    then if ltb now (time + ttl_seconds * 1000) then some value else none
    else earlier
remembered ((time, delete keys) ∷ es) key now =
    let earlier = remembered es key now in if contains keys key then none else earlier

unfoldable pub specified : List Event → List Event → List (Option String)
specified history [] = []
specified history ((time, read key) ∷ es) =
    remembered history key time ∷ specified ((time, read key) ∷ history) es
specified history (e ∷ es) = specified (e ∷ history) es

module _ {R : Type 0} where
  abbrev after_read :
      State R × Result CacheError (Option String)
      → (State R → Result CacheError (List (Option String)))
      → Result CacheError (List (Option String))
  after_read (left, err thrown) rest = err thrown
  after_read (left, ok found) rest = elim (rest left) [
    | err thrown ↦ err thrown
    | ok more ↦ ok (found ∷ more)
  ]

  abbrev after_call :
      State R × Result CacheError (Unit {0})
      → (State R → Result CacheError (List (Option String)))
      → Result CacheError (List (Option String))
  after_call (left, err thrown) rest = err thrown
  after_call (left, ok done) rest = rest left

-- The answers of the module to the reads; `err` where a call throws.
module _ {R : Type 0} (client : Client R) where
  unfoldable pub answers : List Event → State R → Result CacheError (List (Option String))
  answers [] s = ok []
  answers ((time, read key) ∷ es) s =
      after_read (read_cache_value client time key s) (λ left. answers es left)
  answers ((time, write key value ttl_seconds) ∷ es) s =
      after_call (write_cache_value client time key value ttl_seconds s) (λ left. answers es left)
  answers ((time, delete keys) ∷ es) s =
      after_call (delete_cache_keys client time keys s) (λ left. answers es left)

-- No event comes before the one that stands before it.
abbrev pub IsOrdered : ℕ → List Event → Type 0
IsOrdered time [] = Unit
IsOrdered time (e ∷ es) = (time ≤ e.0) × IsOrdered e.0 es

-- What the entries hold for a key at a time.
abbrev pub view : Dict Entry → String → ℕ → Option String
view m key now = elim (lookup key m) [
  | none ↦ none
  | some entry ↦ if ltb now entry.expires_at then some entry.value else none
]

-- From a time on, the entries hold what the history says.
abbrev pub Agrees : List Event → ℕ → Dict Entry → Type 0
Agrees history time m =
    (key : String) (now : ℕ) → time ≤ now → view m key now ≡ remembered history key now

pub view-memory_get :
    (time : ℕ) (key other : String) (m : Dict Entry) (now : ℕ)
    → time ≤ now
    → view (memory_get time key m).0 other now ≡ view m other now
unfolding memory_get
view-memory_get time key other m now later = elim (Option-cases (lookup key m)) [
  | inl missing ↦ rw (missing, memory_get)
  | inr (entry, found) ↦ elim (Bool-cases (leb entry.expires_at time)) [
    | inl old ↦ ground (arith, found, old, later, lookup-remove key other m, eq_iff key other)
    | inr live ↦ rw (found, live, memory_get)
  ]
]

pub memory_get-view :
    (time : ℕ) (key : String) (m : Dict Entry) → (memory_get time key m).1 ≡ view m key time
unfolding memory_get
memory_get-view time key m = ground arith

pub view-memory_set :
    (time : ℕ) (key value : String) (ttl_seconds : ℕ) (m : Dict Entry) (other : String) (now : ℕ)
    → view (memory_set time key value ttl_seconds m) other now ≡ (
        if str_eq key other
        then if ltb now (time + ttl_seconds * 1000) then some value else none
        else view m other now)
unfolding memory_set
view-memory_set time key value ttl_seconds m other now = ground (
  arith,
  lookup-insert key other (record { expires_at = time + ttl_seconds * 1000; value = value }) m,
)

pub view-memory_del :
    (keys : List String) (m : Dict Entry) (other : String) (now : ℕ)
    → view (memory_del keys m).0 other now
      ≡ (if contains keys other then none else view m other now)
unfolding memory_del
view-memory_del [] m other now = refl
view-memory_del (key ∷ keys) m other now =
    ground (arith, view-memory_del keys (remove key m) other now, lookup-remove key other m)

module _ {R : Type 0} (client : Client R) where
  abbrev pub in_memory_state : Bool → Dict Entry → State R
  in_memory_state strict m = record { chosen = in_memory; strict = strict; entries = m }

  pub read-in_memory :
      (time : ℕ) (key : String) (strict : Bool) (m : Dict Entry)
      → read_cache_value client time key (in_memory_state strict m)
        ≡ (in_memory_state strict (memory_get time key m).0, ok (view m key time))
  unfolding read_cache_value store_get or_fallback
  read-in_memory time key strict m =
      ap (λ o. (in_memory_state strict (memory_get time key m).0, ok o))
        (memory_get-view time key m)

  pub write-in_memory :
      (time : ℕ) (key value : String) (ttl_seconds : ℕ) (strict : Bool) (m : Dict Entry)
      → write_cache_value client time key value ttl_seconds (in_memory_state strict m)
        ≡ (in_memory_state strict (memory_set time key value ttl_seconds m), ok tt)
  unfolding write_cache_value store_set or_fallback
  write-in_memory time key value ttl_seconds strict m = refl

  pub delete-in_memory :
      (time : ℕ) (keys : List String) (strict : Bool) (m : Dict Entry)
      → delete_cache_keys client time keys (in_memory_state strict m)
        ≡ (in_memory_state strict (memory_del keys m).0, ok tt)
  unfolding delete_cache_keys store_del or_fallback memory_del
  delete-in_memory time [] strict m = refl
  delete-in_memory time (key ∷ keys) strict m =
      let some_keys : (length (key ∷ keys) == 0) ≡ false = ground arith in
      rw (some_keys, delete_cache_keys) refl

  answers-in_memory :
      (es history : List Event) (time : ℕ) (strict : Bool) (m : Dict Entry)
      → Agrees history time m
      → IsOrdered time es
      → answers client es (in_memory_state strict m) ≡ ok (specified history es)
  unfolding answers specified remembered
  answers-in_memory [] history time strict m same order = refl
  answers-in_memory ((at, read key) ∷ es) history time strict m same order =
      let rest =
        answers-in_memory es ((at, read key) ∷ history) at strict (memory_get at key m).0
          (λ other now later.
            view-memory_get at key other m now later
            ∙ same other now (omega (arith, order.0, later)))
          order.1 in
      rw (answers, specified, read-in_memory at key strict m, rest, same key at order.0) refl
  answers-in_memory ((at, write key value ttl_seconds) ∷ es) history time strict m same order =
      rw (answers, specified, write-in_memory at key value ttl_seconds strict m)
        (answers-in_memory es ((at, write key value ttl_seconds) ∷ history) at strict
          (memory_set at key value ttl_seconds m)
          (λ other now later.
            view-memory_set at key value ttl_seconds m other now
            ∙ rw (same other now (omega (arith, order.0, later))) refl)
          order.1)
  answers-in_memory ((at, delete keys) ∷ es) history time strict m same order =
      rw (answers, specified, delete-in_memory at keys strict m)
        (answers-in_memory es ((at, delete keys) ∷ history) at strict (memory_del keys m).0
          (λ other now later.
            view-memory_del keys m other now
            ∙ rw (same other now (omega (arith, order.0, later))) refl)
          order.1)

  -- If the module is configured outside production with no URL for Redis, then, over any commands at times
  -- that do not go back, no call throws, and each read answers the value of the latest write to its key,
  -- unless a deletion of the key has followed or the time to live is over.
  pub answers-configured :
      (node_env : String) (es : List Event)
      → str_eq node_env "production" ≡ false
      → IsOrdered 0 es
      → answers client es (configure_cache_store client none node_env initial).0
        ≡ ok (specified [] es)
  unfolding configure_cache_store remembered
  answers-configured node_env es other order =
      rw (other, configure_cache_store)
        (answers-in_memory es [] 0 false [] (λ key now later. refl) order)
