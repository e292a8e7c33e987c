-- ===== src/Auth/Examples.antt =====
-- A user with one session, one key, one recovery code and an open challenge.
use birthub_360_innovation.Base.{
  ℕ, ◌≤◌, ◌/◌, List, decimal, String, true, false, ◌||◌, ◌<◌, ◌+◌, ◌*◌, [], ◌∷◌, none, some, ◌≡◌,
  ◌≢◌, refl, ltb, if◌then◌else◌, update_where,
}
use birthub_360_innovation.Base.Int.{int}
use birthub_360_innovation.Base.Result.{ok, err}
use birthub_360_innovation.Auth.{
  admin, MembershipStatus, UserStatus, ApiKeyStatus, agents_read, User, Session, ApiKey,
  RecoveryCode, Challenge, Store, Config, Host, Draw, mfa_challenge_expired, user_suspended,
}
use birthub_360_innovation.Auth.Sessions.{
  SessionInput, new_session, session_tokens, create_session, revoke_all_sessions,
}
use birthub_360_innovation.Auth.ApiKeys.{
  inactive, active, resolve_tenant_id_for_organization, introspect_api_key, is_past, in_grace,
  create_api_key, rotated_key, rotate_tenant_api_key,
}
use birthub_360_innovation.Auth.Hashed.{has_no_dollar, verify_password_hash-hash_password}
use birthub_360_innovation.Auth.Password.{
  hash_password, verify_password_hash, verify_scrypt_hash, is_bcrypt_hash, is_scrypt_hash,
  starts_with, split_dollar,
}
use birthub_360_innovation.Auth.Totp.{
  hash_recovery_code, from_base32, read_bytes, verify_totp_code, hotp, try_windows, counter_buffer,
  truncated, pad_start, totp_period_seconds,
}
use birthub_360_innovation.Auth.Windows.{verify_totp_code_lem}
use birthub_360_innovation.Auth.Request.{
  authenticate_request, authenticate_session, find_session, refresh_session, refused, renewed,
  breached, may_refresh, session_context, find_user, may_act, is_live,
}
use birthub_360_innovation.Auth.Roles.{suspend_user, suspend}
use birthub_360_innovation.Auth.Login.{
  verify_mfa_challenge, answer_challenge, find_challenge, consume, use_recovery_code, check_totp,
  mfa_secret_of,
}
use birthub_360_innovation.Auth.Refresh.{refresh_session-ne-breached, refresh_session_once}
use birthub_360_innovation.Auth.Safety.{is_owned, revoke_all_sessions_lem, suspend_user_lem}
use birthub_360_innovation.Auth.Once.{
  unused, verify_mfa_challenge_once, verify_mfa_challenge-unused, rotate_tenant_api_key_lem,
}

-- A digest of twenty bytes.
abbrev digest : List ℕ
digest =
    0x1f ∷ 0x86 ∷ 0x98 ∷ 0x69 ∷ 0x0e ∷ 0x02 ∷ 0xca ∷ 0x16 ∷ 0x61 ∷ 0x85 ∷ 0x50 ∷ 0xef ∷ 0x7f ∷ 0x19
    ∷ 0xda ∷ 0x8e ∷ 0x94 ∷ 0x5b ∷ 0x55 ∷ 0x5a ∷ []

abbrev host : Host
host = record {
  sha256 = λ t. t;
  scrypt = λ password salt. 1 ∷ 2 ∷ [];
  to_base64url = λ bytes. "AQI";
  from_base64url = λ s. 1 ∷ 2 ∷ [];
  has_bcrypt = false;
  bcrypt_hash = λ password salt. salt;
  bcrypt_compare = λ password stored. false;
  to_number = λ s. int 10;
  hmac_sha1 = λ key message. digest;
  to_upper_case = λ s. s;
  decrypt_totp_secret = λ c. ok c;
}

abbrev config : Config
config = record {
  token_ttl_minutes = 30;
  session_ttl_hours = 12;
  rotation_grace_hours = 24;
  mfa_challenge_ttl_seconds = 300;
  mfa_clock_skew_windows = 1;
  salt_rounds = 12;
  api_key_prefix = "bh";
}

abbrev draw : Draw
draw = record {
  time = 5000;
  row_id = "n";
  access_token = "a2";
  refresh_token = "r2";
  csrf_token = "c2";
  challenge_token = "m2";
  password_salt = "salt";
  key_material = "k2";
}

abbrev user : User
user = record {
  id = "u";
  email = "u@x";
  status = UserStatus.active;
  suspended_at = none;
  password_hash = "p";
  mfa_enabled = true;
  mfa_secret = some "secret";
}

abbrev session : Session
session = record {
  id = "s";
  tenant_id = "t";
  token = "a1";
  refresh_token_hash = some "r1";
  csrf_token = "c1";
  organization_id = "o";
  user_id = "u";
  expires_at = 9000;
  refresh_expires_at = some 9000;
  last_activity_at = 0;
  revoked_at = none;
  replaced_by_session_id = none;
  ip_address = none;
  user_agent = none;
}

-- The key was revoked.
abbrev key : ApiKey
key = record {
  id = "k";
  tenant_id = "t";
  organization_id = "o";
  user_id = "u";
  label = "ci";
  prefix = "bh";
  key_hash = "bh_1";
  last4 = "bh_1";
  scopes = agents_read ∷ [];
  status = ApiKeyStatus.revoked;
  expires_at = none;
  grace_expires_at = none;
  rotated_from_id = none;
  revoked_at = some 100;
  last_used_at = none;
}

abbrev code : RecoveryCode
code = record {
  id = "rc";
  tenant_id = "t";
  user_id = "u";
  code_hash = "recovery:X1";
  used_at = none;
}

abbrev challenge : Challenge
challenge = record {
  id = "ch";
  tenant_id = "t";
  organization_id = "o";
  user_id = "u";
  token_hash = "mfa_1";
  expires_at = 9000;
  consumed_at = none;
}

abbrev store : Store
store = record {
  organizations = record { id = "o"; slug = none; tenant_id = "t" } ∷ [];
  users = user ∷ [];
  memberships =
      record {
        tenant_id = "t";
        organization_id = "o";
        user_id = "u";
        role = admin;
        status = MembershipStatus.active;
      }
      ∷ [];
  sessions = session ∷ [];
  api_keys = key ∷ [];
  recovery_codes = code ∷ [];
  challenges = challenge ∷ [];
  alerts = [];
  audit = [];
}

refresh_session-ne-breached_example :
    (refresh_session host config draw none none "r1" store).1 ≢ breached
refresh_session-ne-breached_example =
    refresh_session-ne-breached host config draw none none "r1" store

refreshed : refresh_session host config draw none none "r1" store ≡ (
  (refresh_session host config draw none none "r1" store).0,
  renewed session "n" (session_tokens config draw),
)
unfolding refresh_session may_refresh create_session
refreshed = refl

refresh_session_once_example :
    refresh_session host config draw none none "r1"
      (refresh_session host config draw none none "r1" store).0
    ≡ ((refresh_session host config draw none none "r1" store).0, refused)
refresh_session_once_example =
    refresh_session_once host config config draw draw none none none none "r1" "n" store
      (refresh_session host config draw none none "r1" store).0 session (session_tokens config draw)
      refreshed

revoke_all_sessions_lem_example :
    (authenticate_session host 6000 "a1" (revoke_all_sessions 5000 "o" "u" store).0).1 ≡ (
      if is_owned host "a1" "o" "u" store
      then none
      else (authenticate_session host 6000 "a1" store).1)
revoke_all_sessions_lem_example = revoke_all_sessions_lem host 5000 6000 "o" "u" "a1" store

-- A second user, who stays.
abbrev two_users : Store
two_users = record store {
  users = record user { id = "v" } ∷ user ∷ [];
  sessions = record session { user_id = "v" } ∷ [];
}

abbrev suspended : Store
suspended = record two_users {
  users =
      record user { id = "v" }
      ∷ record user { status = UserStatus.suspended; suspended_at = some 5000 }
      ∷ [];
  audit =
      record {
        actor_id = "v";
        change = user_suspended UserStatus.active;
        entity_id = "u";
        tenant_id = "t";
      }
      ∷ [];
}

suspended_answer : suspend_user 5000 "v" "o" "u" two_users ≡ ok suspended
unfolding suspend_user suspend find_user update_where resolve_tenant_id_for_organization
suspended_answer = refl

let_in :
    (authenticate_request host 6000 none (some "a1") suspended).1
    ≡ some (session_context (record session { user_id = "v" }))
unfolding authenticate_request authenticate_session find_session is_live may_act find_user
let_in = refl

suspend_user_lem_example : ◌≢◌ {A = String} "v" "u"
suspend_user_lem_example =
    suspend_user_lem host 5000 6000 "v" "o" "u" none (some "a1") two_users suspended
      (session_context (record session { user_id = "v" })) suspended_answer let_in

abbrev input : SessionInput
input = record {
  ip_address = none;
  organization_id = "o";
  tenant_id = "t";
  user_agent = none;
  user_id = "u";
}

abbrev verified : Store
verified = record store {
  sessions = session ∷ new_session host config draw input ∷ [];
  recovery_codes = record code { used_at = some 5000 } ∷ [];
  challenges = record challenge { consumed_at = some 5000 } ∷ [];
}

verified_answer :
    verify_mfa_challenge host config draw "mfa_1" none (some "X1") none none store
    ≡ ok (verified, input, "n", session_tokens config draw)
unfolding hash_recovery_code session_tokens verify_mfa_challenge answer_challenge find_challenge
    mfa_secret_of find_user check_totp use_recovery_code consume create_session update_where
verified_answer = refl

verify_mfa_challenge_once_example :
    verify_mfa_challenge host config draw "mfa_1" none (some "X1") none none verified
    ≡ err mfa_challenge_expired
verify_mfa_challenge_once_example =
    verify_mfa_challenge_once host config config draw draw none (some "X1") none none none
      (some "X1") none none "mfa_1" "n" store verified input (session_tokens config draw)
      verified_answer

verify_mfa_challenge-unused_example :
    unused "u" (verified.recovery_codes) < unused "u" (store.recovery_codes)
verify_mfa_challenge-unused_example =
    verify_mfa_challenge-unused host config draw none (some "X1") none "mfa_1" "n" store verified
      input (session_tokens config draw) verified_answer

abbrev rotated : Store
rotated = record store {
  api_keys = in_grace config 5000 key ∷ rotated_key host config draw key ∷ [];
}

rotated_answer :
    rotate_tenant_api_key host config draw "k" "o" "u" store
    ≡ ok (rotated, "n", create_api_key draw "bh")
unfolding rotate_tenant_api_key update_where
rotated_answer = refl

rotate_tenant_api_key_lem_example : (introspect_api_key host 6000 "bh_1" rotated).1 ≡ (
    if is_past 6000 none || ltb (5000 + 24 * 60 * 60 * 1000) 6000
    then inactive "k"
    else active (in_grace config 5000 key))
rotate_tenant_api_key_lem_example =
    rotate_tenant_api_key_lem host config draw "k" "o" "u" "bh_1" "n" (create_api_key draw "bh")
      store rotated key 6000 refl refl rotated_answer

secret_bytes : from_base32 host "MZXW6===" ≡ 102 ∷ 111 ∷ 111 ∷ []
unfolding from_base32 read_bytes
secret_bytes = refl

accepted : verify_totp_code host 1 "872921" "MZXW6===" 90000 ≡ ok true
unfolding verify_totp_code try_windows hotp counter_buffer truncated pad_start decimal
accepted = refl

verify_totp_code_lem_example :
    (c : ℕ) × (hotp host "MZXW6===" c ≡ ok "872921")
    × (90000 / 1000 / totp_period_seconds ≤ c + 1)
    × (c ≤ 90000 / 1000 / totp_period_seconds + 1)
verify_totp_code_lem_example = verify_totp_code_lem host 1 "872921" "MZXW6===" 90000 accepted

-- A password hashed by scrypt is valid, and hashed again where the cost is to be higher.
hashed : hash_password host "salt" "p" 10 ≡ "scrypt$10$salt$AQI"
unfolding hash_password decimal
hashed = refl

hashed_is_valid : verify_password_hash host "p" "scrypt$10$salt$AQI" 12 ≡ (true, true)
unfolding verify_password_hash verify_scrypt_hash is_bcrypt_hash is_scrypt_hash starts_with
    split_dollar
hashed_is_valid = refl

bcrypt_without_module : verify_password_hash host "p" "$2b$10$x" 12 ≡ (false, false)
unfolding verify_password_hash is_bcrypt_hash starts_with
bcrypt_without_module = refl

verify_password_hash-hash_password_example :
    (verify_password_hash host "p" (hash_password host "salt" "p" 10) 12).0 ≡ true
unfolding has_no_dollar
verify_password_hash-hash_password_example =
    verify_password_hash-hash_password host "salt" "p" 10 12 refl refl refl refl refl refl
