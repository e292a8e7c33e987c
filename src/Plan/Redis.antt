-- ===== src/Plan/Redis.antt =====
-- The two kinds of keys that the executor keeps in Redis: `GET`, `SET … EX … NX`, `SET … EX`, `DEL`.
use birthub_360_innovation.Base.{
  ℕ, ◌+◌, ◌*◌, ◌<◌, String, [], ◌∷◌, Option, none, some, ◌≡◌, arith, ltb, if◌then◌else◌, str_eq,
  eq_iff, str_eq_refl, Dict, lookup, insert, lookup-insert, str_append,
}
use birthub_360_innovation.Plan.{Entry}

abbrev pub exec_result_ttl_seconds : ℕ
exec_result_ttl_seconds = 3600

abbrev pub exec_lock_ttl_seconds : ℕ
exec_lock_ttl_seconds = 900

abbrev pub result_key : String → String
result_key execution_id = str_append "exec_result:" execution_id

abbrev pub lock_key : String → String
lock_key execution_id = str_append "exec_lock:" execution_id

module _ {ℓ} {A : Type ℓ} where
  -- An entry that has not expired.
  unfoldable pub get : ℕ → String → Dict (Entry A) → Option A
  get time key m = elim (lookup key m) [
    | none ↦ none
    | some e ↦ if ltb time e.expires_at then some e.content else none
  ]

  unfoldable pub set_ex : ℕ → String → A → ℕ → Dict (Entry A) → Dict (Entry A)
  set_ex time key content ttl m =
      insert key (record { content = content; expires_at = time + ttl * 1000 }) m

  unfoldable pub del : String → Dict (Entry A) → Dict (Entry A)
  del key [] = []
  del key ((k, e) ∷ m) = if str_eq k key then del key m else (k, e) ∷ del key m

  pub lookup-del :
      (key k : String) (m : Dict (Entry A))
      → lookup k (del key m) ≡ (if str_eq key k then none else lookup k m)
  unfolding del
  lookup-del key k [] = ground arith
  lookup-del key k ((j, e) ∷ m) =
      ground (arith, lookup-del key k m, eq_iff j key, eq_iff j k, eq_iff key k)

  pub get-set_ex :
      (time now : ℕ) (key : String) (content : A) (ttl : ℕ) (m : Dict (Entry A))
      → now < time + ttl * 1000
      → get now key (set_ex time key content ttl m) ≡ some content
  unfolding get set_ex
  get-set_ex time now key content ttl m h =
      let e : Entry A = record { content = content; expires_at = time + ttl * 1000 } in
      ground (arith, lookup-insert key key e m, str_eq_refl key)
