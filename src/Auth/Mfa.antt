-- ===== src/Auth/Mfa.antt =====
-- `setupMfaForUser` and `enableMfaForUser`. The secret and the codes that are drawn are arguments.
use birthub_360_innovation.Base.{
  update_where, String, Bool, true, false, not, List, ◌++◌, map, Option, none, some, if◌then◌else◌,
  str_eq, filter, find, ℕ,
}
use birthub_360_innovation.Base.Result.{Result, ok, err, ◌>>=◌}
use birthub_360_innovation.Auth.{
  RecoveryCode, Store, Config, Host, AuthError, tenant_not_found_for_user, mfa_not_configured,
}
use birthub_360_innovation.Auth.Totp.{verify_totp_code, hash_recovery_code}
use birthub_360_innovation.Auth.Request.{given}
use birthub_360_innovation.Auth.Login.{mfa_secret_of}

-- The tenant of the call, or that of a membership of the user.
unfoldable pub tenant_of : Option String → String → Store → Option String
tenant_of (some tenant_id) user_id s = some tenant_id
tenant_of none user_id s = elim (find (λ m. str_eq m.user_id user_id) s.memberships) [
  | none ↦ none
  | some m ↦ some m.tenant_id
]

-- A drawn code has the id of its row with it.
unfoldable pub new_code : Host → String → String → String × String → RecoveryCode
new_code host tenant_id user_id (id, code) = record {
  id = id;
  tenant_id = tenant_id;
  user_id = user_id;
  code_hash = hash_recovery_code host code;
  used_at = none;
}

unfoldable pub setup_mfa_for_user :
    Host
    → String
    → List (String × String)
    → Option String
    → String
    → Store
    → Result AuthError (Store × List String)
setup_mfa_for_user host encrypted_secret codes tenant_id user_id s =
    elim (given (tenant_of tenant_id user_id s)) [
      | none ↦ err tenant_not_found_for_user
      | some tenant ↦ ok (
        record s {
          users =
              update_where (λ u. str_eq u.id user_id)
                (λ u. record u { mfa_enabled = false; mfa_secret = some encrypted_secret }) s.users;
          recovery_codes =
              filter (λ r. not (str_eq r.user_id user_id)) s.recovery_codes
              ++ map (new_code host tenant user_id) codes;
        },
        map (λ c. c.1) codes,
      )
    ]

unfoldable pub enable_mfa_for_user :
    Host → Config → ℕ → String → String → Store → Result AuthError (Store × Bool)
enable_mfa_for_user host config time totp_code user_id s = elim (mfa_secret_of user_id s) [
  | none ↦ err mfa_not_configured
  | some secret ↦ host.decrypt_totp_secret secret >>= λ plain.
      verify_totp_code host config.mfa_clock_skew_windows totp_code plain time >>= λ fits.
      if fits
      then ok (
        record s {
          users =
              update_where (λ u. str_eq u.id user_id) (λ u. record u { mfa_enabled = true })
                s.users;
        },
        true,
      )
      else ok (s, false)
]
