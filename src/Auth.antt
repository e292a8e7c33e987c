-- ===== src/Auth.antt =====
-- apps/api/src/modules/auth/auth.service.ts: the rows that authentication reads and writes, and what
-- it takes from elsewhere. A table is the list of its rows in the order of their creation. A call
-- reads the clock once; times are in milliseconds. The ids and tokens that a call draws are new: a
-- collision, which the database would refuse, is not modelled. The children model the functions.
pub mod Sessions
pub mod Totp
pub mod Password
pub mod Login
pub mod ApiKeys
pub mod Request
pub mod Roles
pub mod Mfa
pub mod Windows
pub mod Hashed
pub mod Refresh
pub mod Safety
pub mod Once
mod Examples
use birthub_360_innovation.Base.{ℕ, String, Bool, true, false, List, Option}
use birthub_360_innovation.Base.Int.{Number}
use birthub_360_innovation.Base.Result.{Result}

pub data Role : Type 0 where
  super_admin owner admin member readonly : Role

pub data MembershipStatus : Type 0 where
  active invited revoked : MembershipStatus

pub data UserStatus : Type 0 where
  active suspended : UserStatus

pub data ApiKeyStatus : Type 0 where
  active revoked : ApiKeyStatus

pub data ApiKeyScope : Type 0 where
  agents_read agents_write workflows_trigger webhooks_receive : ApiKeyScope

pub record Organization : Type 0 where
  pub id : String
  pub slug : Option String
  pub tenant_id : String

pub record User : Type 0 where
  pub id : String
  pub email : String
  pub status : UserStatus
  pub suspended_at : Option ℕ
  pub password_hash : String
  pub mfa_enabled : Bool
  pub mfa_secret : Option String

pub record Membership : Type 0 where
  pub tenant_id : String
  pub organization_id : String
  pub user_id : String
  pub role : Role
  pub status : MembershipStatus

-- `token` holds the hash of the access token.
pub record Session : Type 0 where
  pub id : String
  pub tenant_id : String
  pub token : String
  pub refresh_token_hash : Option String
  pub csrf_token : String
  pub organization_id : String
  pub user_id : String
  pub expires_at : ℕ
  pub refresh_expires_at : Option ℕ
  pub last_activity_at : ℕ
  pub revoked_at : Option ℕ
  pub replaced_by_session_id : Option String
  pub ip_address : Option String
  pub user_agent : Option String

pub record ApiKey : Type 0 where
  pub id : String
  pub tenant_id : String
  pub organization_id : String
  pub user_id : String
  pub label : String
  pub prefix : String
  pub key_hash : String
  pub last4 : String
  pub scopes : List ApiKeyScope
  pub status : ApiKeyStatus
  pub expires_at : Option ℕ
  pub grace_expires_at : Option ℕ
  pub rotated_from_id : Option String
  pub revoked_at : Option ℕ
  pub last_used_at : Option ℕ

pub record RecoveryCode : Type 0 where
  pub id : String
  pub tenant_id : String
  pub user_id : String
  pub code_hash : String
  pub used_at : Option ℕ

pub record Challenge : Type 0 where
  pub id : String
  pub tenant_id : String
  pub organization_id : String
  pub user_id : String
  pub token_hash : String
  pub expires_at : ℕ
  pub consumed_at : Option ℕ

pub record LoginAlert : Type 0 where
  pub organization_id : String
  pub tenant_id : String
  pub user_id : String
  pub ip_address : Option String
  pub user_agent : Option String

-- What an audit row says of the change.
pub data Change : Type 0 where
  user_suspended : UserStatus → Change
  role_updated : Role → Role → Change

pub record AuditLog : Type 0 where
  pub actor_id : String
  pub change : Change
  pub entity_id : String
  pub tenant_id : String

pub record Store : Type 0 where
  pub organizations : List Organization
  pub users : List User
  pub memberships : List Membership
  pub sessions : List Session
  pub api_keys : List ApiKey
  pub recovery_codes : List RecoveryCode
  pub challenges : List Challenge
  pub alerts : List LoginAlert
  pub audit : List AuditLog

-- The errors that the functions throw.
pub data AuthError : Type 0 where
  invalid_credentials account_suspended invalid_mfa_challenge mfa_challenge_expired
        mfa_not_configured invalid_mfa_code tenant_not_found_for_user tenant_not_found
        api_key_not_found user_not_found membership_not_found decryption_failed
        counter_out_of_range :
      AuthError

-- The settings that are read.
pub record Config : Type 0 where
  pub token_ttl_minutes : ℕ
  pub session_ttl_hours : ℕ
  pub rotation_grace_hours : ℕ
  pub mfa_challenge_ttl_seconds : ℕ
  pub mfa_clock_skew_windows : ℕ
  pub salt_rounds : ℕ
  pub api_key_prefix : String

-- What the files take from elsewhere: SHA-256 in hexadecimal, HMAC-SHA-1 of bytes with a key, scrypt of
-- a password and a salt, and base64url; the module of bcrypt, if there is one; `toUpperCase` and
-- `Number(x)`; and the decryption of a secret with the key of the configuration, which may throw.
pub record Host : Type 0 where
  pub sha256 : String → String
  pub hmac_sha1 : List ℕ → List ℕ → List ℕ
  pub scrypt : String → String → List ℕ
  pub to_base64url : List ℕ → String
  pub from_base64url : String → List ℕ
  pub has_bcrypt : Bool
  pub bcrypt_hash : String → String → String
  pub bcrypt_compare : String → String → Bool
  pub to_upper_case : String → String
  pub to_number : String → Number
  pub decrypt_totp_secret : String → Result AuthError String

-- What one call draws: the time, the ids of new rows, and new tokens.
pub record Draw : Type 0 where
  pub time : ℕ
  pub row_id : String
  pub access_token : String
  pub refresh_token : String
  pub csrf_token : String
  pub challenge_token : String
  pub key_material : String
  pub password_salt : String

unfoldable pub is_active_membership : MembershipStatus → Bool
is_active_membership MembershipStatus.active = true
is_active_membership _ = false

unfoldable pub is_suspended : UserStatus → Bool
is_suspended UserStatus.suspended = true
is_suspended _ = false
