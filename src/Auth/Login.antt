-- ===== src/Auth/Login.antt =====
-- `loginWithPassword`, `verifyMfaChallenge`, and the setup of MFA.
use birthub_360_innovation.Base.{
  update_where, ℕ, ◌+◌, ◌*◌, String, Bool, true, false, not, ◌&&◌, ◌||◌, List, [], ◌∷◌, ◌++◌,
  Option, none, some, ltb, if◌then◌else◌, is_some, opt_str_eq, str_append, str_eq, find,
}
use birthub_360_innovation.Base.Result.{Result, ok, err, ◌>>=◌}
use birthub_360_innovation.Auth.{
  User, Membership, RecoveryCode, Challenge, Store, Host, Config, Draw, AuthError,
  invalid_credentials, account_suspended, invalid_mfa_challenge, mfa_challenge_expired,
  mfa_not_configured, invalid_mfa_code, is_active_membership, is_suspended,
}
use birthub_360_innovation.Auth.Sessions.{
  SessionInput, SessionTokens, session_tokens, create_session, is_of,
}
use birthub_360_innovation.Auth.Password.{hash_password, verify_password_hash}
use birthub_360_innovation.Auth.Totp.{verify_totp_code, hash_recovery_code}
use birthub_360_innovation.Auth.Request.{find_user, given}

-- The last that passes the test: `findFirst` with the latest creation first.
unfoldable pub find_last : {A : Type 0} → (A → Bool) → List A → Option A
find_last p [] = none
find_last p (x ∷ xs) = elim (find_last p xs) [
  | some y ↦ some y
  | none ↦ if p x then some x else none
]

unfoldable pub create_new_device_alert : SessionInput → Store → Store
create_new_device_alert input s =
    elim (find_last (is_of input.organization_id input.user_id) s.sessions) [
      | none ↦ s
      | some latest ↦
          if opt_str_eq latest.ip_address input.ip_address
            && opt_str_eq latest.user_agent input.user_agent
          then s
          else record s {
            alerts =
                s.alerts
                ++ record {
                  organization_id = input.organization_id;
                  tenant_id = input.tenant_id;
                  user_id = input.user_id;
                  ip_address = input.ip_address;
                  user_agent = input.user_agent;
                }
                  ∷ [];
          }
    ]

-- What a login answers: a challenge, or a session.
pub data LoginAnswer : Type 0 where
  mfa_required : ℕ → String → LoginAnswer
  logged_in : SessionInput → String → SessionTokens → LoginAnswer

-- A membership of the organization whose user has the address, with the user.
unfoldable pub find_member :
    String → String → List Membership → List User → Option (Membership × User)
find_member organization_id email [] us = none
find_member organization_id email (m ∷ ms) us =
    let rest = find_member organization_id email ms us in
    elim (find (λ u. str_eq u.id m.user_id && str_eq u.email email) us) [
      | none ↦ rest
      | some u ↦
          if str_eq m.organization_id organization_id && is_active_membership m.status
          then some (m, u)
          else rest
    ]

unfoldable pub rehash : Host → Config → Draw → Bool → String → String → Store → Store
rehash host config draw needs_rehash user_id password s =
    if needs_rehash
    then record s {
      users =
          update_where (λ u. str_eq u.id user_id)
            (λ u. record u {
              password_hash = hash_password host draw.password_salt password config.salt_rounds;
            })
            s.users;
    }
    else s

unfoldable pub challenge_token : Draw → String
challenge_token draw = str_append "mfa_" draw.challenge_token

unfoldable pub challenge_expires_at : Config → Draw → ℕ
challenge_expires_at config draw = draw.time + config.mfa_challenge_ttl_seconds * 1000

unfoldable pub new_challenge : Host → Config → Draw → SessionInput → Challenge
new_challenge host config draw input = record {
  id = draw.row_id;
  tenant_id = input.tenant_id;
  organization_id = input.organization_id;
  user_id = input.user_id;
  token_hash = host.sha256 (challenge_token draw);
  expires_at = challenge_expires_at config draw;
  consumed_at = none;
}

-- What follows the check of the password.
unfoldable pub complete_login :
    Host → Config → Draw → Bool → SessionInput → Store → Store × LoginAnswer
complete_login host config draw mfa_enabled input s =
    let alerted = create_new_device_alert input s in
    let created = create_session host config draw input alerted in
    if mfa_enabled
    then (
      record alerted {
        challenges = alerted.challenges ++ new_challenge host config draw input ∷ [];
      },
      mfa_required (challenge_expires_at config draw) (challenge_token draw),
    )
    else (created.0, logged_in input draw.row_id (session_tokens config draw))

unfoldable pub login_with_password :
    Host
    → Config
    → Draw
    → String
    → Option String
    → String
    → String
    → Option String
    → Store
    → Result AuthError (Store × LoginAnswer)
login_with_password host config draw email ip_address organization_id password user_agent s =
    elim (find_member organization_id email s.memberships s.users) [
      | none ↦ err invalid_credentials
      | some (m, u) ↦
          let check = verify_password_hash host password u.password_hash config.salt_rounds in
          if is_suspended u.status
          then err account_suspended
          else if not check.0
          then err invalid_credentials
          else ok (
              complete_login host config draw u.mfa_enabled
                (record {
                  ip_address = ip_address;
                  organization_id = organization_id;
                  tenant_id = m.tenant_id;
                  user_agent = user_agent;
                  user_id = m.user_id;
                })
                (rehash host config draw check.1 m.user_id password s))
    ]

abbrev pub is_unused : Host → String → String → RecoveryCode → Bool
is_unused host user_id code r =
    str_eq r.code_hash (hash_recovery_code host code)
    && not (is_some r.used_at)
    && str_eq r.user_id user_id

-- The recovery code is used up, if there is one; the answer is whether there was.
unfoldable pub use_recovery_code : Host → ℕ → String → Option String → Store → Store × Bool
use_recovery_code host time user_id recovery_code s = elim (given recovery_code) [
  | none ↦ (s, false)
  | some code ↦ elim (find (is_unused host user_id code) s.recovery_codes) [
    | none ↦ (s, false)
    | some r ↦ (
      record s {
        recovery_codes =
            update_where (λ x. str_eq x.id r.id) (λ x. record x { used_at = some time })
              s.recovery_codes;
      },
      true,
    )
  ]
]

-- Whether the code of the authenticator fits, if one was given.
unfoldable pub check_totp : Host → Config → ℕ → String → Option String → Result AuthError Bool
check_totp host config time secret totp_code = elim (given totp_code) [
  | none ↦ ok false
  | some code ↦ host.decrypt_totp_secret secret >>= λ plain.
      verify_totp_code host config.mfa_clock_skew_windows code plain time
]

unfoldable pub find_challenge : Host → String → Store → Option Challenge
find_challenge host token s = find (λ c. str_eq c.token_hash (host.sha256 token)) s.challenges

abbrev pub is_closed : ℕ → Challenge → Bool
is_closed time c = is_some c.consumed_at || ltb c.expires_at time

unfoldable pub consume : ℕ → Challenge → Store → Store
consume time challenge s = record s {
  challenges =
      update_where (λ c. str_eq c.id challenge.id) (λ c. record c { consumed_at = some time })
        s.challenges;
}

-- The secret that the code is checked against: a user with none, or with the empty one, has none.
unfoldable pub mfa_secret_of : String → Store → Option String
mfa_secret_of user_id s = elim (find_user user_id s) [ none ↦ none | some u ↦ given u.mfa_secret ]

-- What follows once the challenge and the secret are at hand.
unfoldable pub answer_challenge :
    Host
    → Config
    → Draw
    → Option String
    → Option String
    → Option String
    → Option String
    → Challenge
    → String
    → Store
    → Result AuthError (Store × SessionInput × String × SessionTokens)
answer_challenge host config draw ip_address recovery_code totp_code user_agent challenge secret s =
    let input : SessionInput = record {
      ip_address = ip_address;
      organization_id = challenge.organization_id;
      tenant_id = challenge.tenant_id;
      user_agent = user_agent;
      user_id = challenge.user_id;
    } in
    check_totp host config draw.time secret totp_code >>= λ fits.
    let used = use_recovery_code host draw.time challenge.user_id recovery_code s in
    let opened =
      λ (t : Store). create_session host config draw input (consume draw.time challenge t) in
    if fits
    then ok ((opened s).0, input, (opened s).1, (opened s).2)
    else if used.1
    then ok ((opened used.0).0, input, (opened used.0).1, (opened used.0).2)
    else err invalid_mfa_code

unfoldable pub verify_mfa_challenge :
    Host
    → Config
    → Draw
    → String
    → Option String
    → Option String
    → Option String
    → Option String
    → Store
    → Result AuthError (Store × SessionInput × String × SessionTokens)
verify_mfa_challenge host config draw token ip_address recovery_code totp_code user_agent s =
    elim (find_challenge host token s) [
      | none ↦ err invalid_mfa_challenge
      | some challenge ↦
          if is_closed draw.time challenge
          then err mfa_challenge_expired
          else elim (mfa_secret_of challenge.user_id s) [
            | none ↦ err mfa_not_configured
            | some secret ↦
                answer_challenge host config draw ip_address recovery_code totp_code user_agent
                  challenge secret s
          ]
    ]
