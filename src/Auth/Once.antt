-- ===== src/Auth/Once.antt =====
-- What can be used once, and keys that were rotated.
use birthub_360_innovation.Base.{
  ℕ, ◌+◌, ◌*◌, ◌≤◌, ◌<◌, String, Bool, true, ◌&&◌, ◌||◌, not, List, [], ◌∷◌, ◌++◌, Option, none,
  some, ◌≡◌, refl, sym, ap, ◌∙◌, subst, inl, inr, arith, ltb, if◌then◌else◌, is_some, Bool-cases,
  Option-cases, str_eq, str_eq_refl, length, filter, find,
}
use birthub_360_innovation.Base.{update_where, find-update_where, find-append}
use birthub_360_innovation.Base.Result.{ok, err}
use birthub_360_innovation.Auth.{
  RecoveryCode, Challenge, ApiKey, Store, Host, Config, Draw, mfa_challenge_expired,
}
use birthub_360_innovation.Auth.Sessions.{SessionInput, SessionTokens, create_session}
use birthub_360_innovation.Auth.Login.{
  verify_mfa_challenge, answer_challenge, find_challenge, is_closed, consume, use_recovery_code,
  check_totp, is_unused, mfa_secret_of,
}
use birthub_360_innovation.Auth.Request.{given}
use birthub_360_innovation.Auth.ApiKeys.{
  inactive, active, introspect_api_key, is_expired, is_revoked, is_past, is_key, in_grace,
  rotate_tenant_api_key, rotated_key,
}

module _ (host : Host) (config : Config) (draw : Draw)
    (ip_address recovery_code totp_code user_agent : Option String) (s s' : Store)
    (input : SessionInput) (id : String) (tokens : SessionTokens) where
  challenges-answer_challenge :
      (challenge : Challenge) (secret : String)
      → answer_challenge host config draw ip_address recovery_code totp_code user_agent challenge
          secret s
        ≡ ok (s', input, id, tokens)
      → s'.challenges ≡ (consume draw.time challenge s).challenges
  unfolding answer_challenge create_session consume use_recovery_code
  challenges-answer_challenge challenge secret e = ground (arith, e)

  -- A call that answers found an open challenge and a secret.
  verify_mfa_challenge-ok :
      (token : String)
      → verify_mfa_challenge host config draw token ip_address recovery_code totp_code user_agent s
        ≡ ok (s', input, id, tokens)
      → (challenge : Challenge) × (secret : String) × (find_challenge host token s ≡ some challenge)
        × (answer_challenge host config draw ip_address recovery_code totp_code user_agent challenge
              secret s
            ≡ ok (s', input, id, tokens))
  unfolding verify_mfa_challenge
  verify_mfa_challenge-ok token e = elim (Option-cases (find_challenge host token s)) [
    | inl missing ↦ cc (rw (missing, verify_mfa_challenge) at e)
    | inr (c, found) ↦ elim (Bool-cases (is_closed draw.time c)) [
      | inl closed ↦ cc (rw (found, closed, verify_mfa_challenge) at e)
      | inr still ↦ elim (Option-cases (mfa_secret_of c.user_id s)) [
        | inl unset ↦ cc (rw (found, still, unset, verify_mfa_challenge) at e)
        | inr (secret, set) ↦ (c, secret, found, rw (found, still, set, verify_mfa_challenge) at e)
      ]
    ]
  ]

-- After a challenge was answered with success, a call for it on the store that is left, at whatever time,
-- throws that it is expired, whatever codes it gives.
pub verify_mfa_challenge_once :
    (host : Host) (config later_config : Config) (draw later_draw : Draw)
    (ip_address recovery_code totp_code user_agent : Option String)
    (later_ip later_recovery later_totp later_agent : Option String) (token id : String)
    (s s' : Store) (input : SessionInput) (tokens : SessionTokens)
    → verify_mfa_challenge host config draw token ip_address recovery_code totp_code user_agent s
      ≡ ok (s', input, id, tokens)
    → verify_mfa_challenge host later_config later_draw token later_ip later_recovery later_totp
        later_agent s'
      ≡ err mfa_challenge_expired
unfolding verify_mfa_challenge
verify_mfa_challenge_once host config later_config draw later_draw ip_address recovery_code
      totp_code user_agent later_ip later_recovery later_totp later_agent token id s s' input tokens
      e =
    let (c, secret, found, answered) =
      verify_mfa_challenge-ok host config draw ip_address recovery_code totp_code user_agent s s'
        input id tokens token e in
    let rows =
      challenges-answer_challenge host config draw ip_address recovery_code totp_code user_agent s
        s' input id tokens c secret answered in
    let there : find_challenge host token s' ≡ some (record c { consumed_at = some draw.time }) =
      unfold find_challenge consume in
      ap (find (λ x. str_eq x.token_hash (host.sha256 token))) rows
      ∙ find-update_where (λ x. str_eq x.token_hash (host.sha256 token)) (λ x. str_eq x.id c.id)
          (λ x. record x { consumed_at = some draw.time }) (λ x. refl) s.challenges
      ∙ rw (found, str_eq_refl c.id) in
    rw (there, verify_mfa_challenge)

-- The codes of a user that are not used.
abbrev pub is_open : String → RecoveryCode → Bool
is_open user_id r = not (is_some r.used_at) && str_eq r.user_id user_id

abbrev pub unused : String → List RecoveryCode → ℕ
unused user_id rs = length (filter (is_open user_id) rs)

abbrev use_up : ℕ → RecoveryCode → RecoveryCode
use_up time r = record r { used_at = some time }

unused-le :
    (user_id : String) (time : ℕ) (q : RecoveryCode → Bool) (rs : List RecoveryCode)
    → unused user_id (update_where q (use_up time) rs) ≤ unused user_id rs
unfolding update_where
unused-le user_id time q [] = omega arith
unused-le user_id time q (r ∷ rs) = ground (arith, unused-le user_id time q rs)

unused-lt :
    (host : Host) (user_id code : String) (time : ℕ) (rs : List RecoveryCode) (r : RecoveryCode)
    → find (is_unused host user_id code) rs ≡ some r
    → unused user_id (update_where (λ x. str_eq x.id r.id) (use_up time) rs) < unused user_id rs
unfolding update_where
unused-lt host user_id code time [] r h = cc
unused-lt host user_id code time (x ∷ rs) r h = elim (Bool-cases (is_unused host user_id code x)) [
  | inl this ↦
      let q : some x ≡ some r = rw this at h in
      let same : x ≡ r = cc q in
      subst
        (λ y.
          unused user_id (update_where (λ z. str_eq z.id y.id) (use_up time) (x ∷ rs))
          < unused user_id (x ∷ rs))
        same
        (ground (arith, this, str_eq_refl x.id, unused-le user_id time (λ z. str_eq z.id x.id) rs))
  | inr other ↦ ground (arith, unused-lt host user_id code time rs r (rw other at h))
]

use_recovery_code-lt :
    (host : Host) (time : ℕ) (user_id : String) (recovery_code : Option String) (s : Store)
    → (use_recovery_code host time user_id recovery_code s).1 ≡ true
    → unused user_id (use_recovery_code host time user_id recovery_code s).0.recovery_codes
      < unused user_id s.recovery_codes
unfolding use_recovery_code
use_recovery_code-lt host time user_id recovery_code s e =
    elim (Option-cases (given recovery_code)) [
      | inl no_code ↦ cc (rw (no_code, use_recovery_code) at e)
      | inr (code, there) ↦
          elim (Option-cases (find (is_unused host user_id code) s.recovery_codes)) [
            | inl missing ↦ cc (rw (there, missing, use_recovery_code) at e)
            | inr (r, found) ↦
                rw (there, found, use_recovery_code)
                  (unused-lt host user_id code time s.recovery_codes r found)
          ]
    ]

module _ (host : Host) (config : Config) (draw : Draw)
    (ip_address recovery_code user_agent : Option String) (s s' : Store) (input : SessionInput)
    (id : String) (tokens : SessionTokens) (c : Challenge) (secret : String) where
  used : Store × Bool
  used = use_recovery_code host draw.time c.user_id recovery_code s

  recovered :
      answer_challenge host config draw ip_address recovery_code none user_agent c secret s
        ≡ ok (s', input, id, tokens)
      → (used.1 ≡ true) × (s'.recovery_codes ≡ used.0.recovery_codes) × (input.user_id ≡ c.user_id)
  unfolding answer_challenge check_totp create_session consume used
  recovered e = elim (Bool-cases used.1) [
    | inl fits ↦ (fits, ground (arith, e, fits), ground (arith, e, fits))
    | inr wrong ↦ cc (rw (wrong, answer_challenge) at e)
  ]

-- Where no code of the authenticator is given, a call that lets a user in uses up one of the recovery codes
-- of that user.
pub verify_mfa_challenge-unused :
    (host : Host) (config : Config) (draw : Draw)
    (ip_address recovery_code user_agent : Option String) (token id : String) (s s' : Store)
    (input : SessionInput) (tokens : SessionTokens)
    → verify_mfa_challenge host config draw token ip_address recovery_code none user_agent s
      ≡ ok (s', input, id, tokens)
    → unused input.user_id s'.recovery_codes < unused input.user_id s.recovery_codes
unfolding used
verify_mfa_challenge-unused host config draw ip_address recovery_code user_agent token id s s' input
      tokens e =
    let (c, secret, found, answered) =
      verify_mfa_challenge-ok host config draw ip_address recovery_code none user_agent s s' input
        id tokens token e in
    let (fits, codes, user) =
      recovered host config draw ip_address recovery_code user_agent s s' input id tokens c secret
        answered in
    rw (codes, user) (use_recovery_code-lt host draw.time c.user_id recovery_code s fits)

-- After a key was rotated, the old key is active until its grace period or its own time is over,
-- whether or not it was revoked before.
pub rotate_tenant_api_key_lem :
    (host : Host) (config : Config) (draw : Draw)
    (id organization_id user_id token new_id key : String) (s s' : Store) (current : ApiKey)
    (later : ℕ)
    → find (is_key id organization_id user_id) s.api_keys ≡ some current
    → find (λ k. str_eq k.key_hash (host.sha256 token)) s.api_keys ≡ some current
    → rotate_tenant_api_key host config draw id organization_id user_id s ≡ ok (s', new_id, key)
    → (introspect_api_key host later token s').1 ≡ (
        if is_past later current.expires_at
          || ltb (draw.time + config.rotation_grace_hours * 60 * 60 * 1000) later
        then inactive current.id
        else active (in_grace config draw.time current))
unfolding introspect_api_key rotate_tenant_api_key is_expired is_revoked in_grace
rotate_tenant_api_key_lem host config draw id organization_id user_id token new_id key s s' current
      later mine known e =
    let hashed = λ (k : ApiKey). str_eq k.key_hash (host.sha256 token) in
    let rows : update_where (λ k. str_eq k.id current.id) (in_grace config draw.time) s.api_keys
          ++ rotated_key host config draw current ∷ []
        ≡ s'.api_keys =
      ground (arith, e, mine) in
    let there : find hashed s'.api_keys ≡ some (in_grace config draw.time current) =
      ap (find hashed) (sym rows)
      ∙ rw (
        find-append hashed
            (update_where (λ k. str_eq k.id current.id) (in_grace config draw.time) s.api_keys)
            (rotated_key host config draw current ∷ []),
        find-update_where hashed (λ k. str_eq k.id current.id) (in_grace config draw.time)
            (λ k. refl) s.api_keys,
        known,
        str_eq_refl current.id,
      ) in
    elim (Bool-cases (is_expired later (in_grace config draw.time current))) [
      | inl over ↦ rw (there, over, introspect_api_key)
      | inr still ↦ rw (there, still, introspect_api_key)
    ]
