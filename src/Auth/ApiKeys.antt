-- ===== src/Auth/ApiKeys.antt =====
-- The API keys: creation, listing, rotation, revocation and introspection.
use Prim.Native.String.{len}
use birthub_360_innovation.Base.{
  update_where, ℕ, ◌+◌, ◌*◌, String, Bool, true, false, ◌&&◌, ◌||◌, List, [], ◌∷◌, ◌++◌, Option,
  none, some, ltb, leb, if◌then◌else◌, is_some, str_eq, filter, find, any, str_append,
}
use birthub_360_innovation.Base.Result.{Result, ok, err}
use birthub_360_innovation.Auth.{
  ApiKey, ApiKeyScope, ApiKeyStatus, Store, Host, Config, Draw, AuthError, tenant_not_found,
  api_key_not_found,
}
use birthub_360_innovation.Auth.ApiKeyScope.{
  agents_read, agents_write, workflows_trigger, webhooks_receive,
}

unfoldable pub resolve_tenant_id_for_organization : String → Store → Option String
resolve_tenant_id_for_organization organization_id s =
    elim (find (λ o. str_eq o.id organization_id || str_eq o.tenant_id organization_id)
      s.organizations) [ none ↦ none | some o ↦ some o.tenant_id ]

-- `key.slice(-4)`; a key is ASCII.
unfoldable pub last_chars : ℕ → String → String
last_chars n String.[] = String.[]
last_chars n (String.◌∷◌ c s) =
    let rest = last_chars n s in if leb (len (String.◌∷◌ c s)) n then String.◌∷◌ c s else rest

-- `createApiKey`: the key; its hash, its end and the prefix go into the row.
unfoldable pub create_api_key : Draw → String → String
create_api_key draw prefix = str_append prefix (str_append "_" draw.key_material)

unfoldable pub new_api_key :
    Host → Config → Draw → String → String → List ApiKeyScope → String → String → ApiKey
new_api_key host config draw label organization_id scopes tenant_id user_id =
    let key = create_api_key draw config.api_key_prefix in
    record {
      id = draw.row_id;
      tenant_id = tenant_id;
      organization_id = organization_id;
      user_id = user_id;
      label = label;
      prefix = config.api_key_prefix;
      key_hash = host.sha256 key;
      last4 = last_chars 4 key;
      scopes = scopes;
      status = ApiKeyStatus.active;
      expires_at = none;
      grace_expires_at = none;
      rotated_from_id = none;
      revoked_at = none;
      last_used_at = none;
    }

-- The answer is the id of the row and the key.
unfoldable pub create_tenant_api_key :
    Host
    → Config
    → Draw
    → String
    → String
    → List ApiKeyScope
    → String
    → Store
    → Result AuthError (Store × String × String)
create_tenant_api_key host config draw label organization_id scopes user_id s =
    elim (resolve_tenant_id_for_organization organization_id s) [
      | none ↦ err tenant_not_found
      | some tenant_id ↦ ok (
        record s {
          api_keys =
              s.api_keys
              ++ new_api_key host config draw label organization_id scopes tenant_id user_id ∷ [];
        },
        draw.row_id,
        create_api_key draw config.api_key_prefix,
      )
    ]

-- The rows are listed the newest first.
unfoldable pub reverse : List ApiKey → List ApiKey
reverse [] = []
reverse (k ∷ ks) = reverse ks ++ k ∷ []

abbrev pub is_key : String → String → String → ApiKey → Bool
is_key id organization_id user_id k =
    str_eq k.id id && str_eq k.organization_id organization_id && str_eq k.user_id user_id

unfoldable pub list_tenant_api_keys : String → String → Store → List ApiKey
list_tenant_api_keys organization_id user_id s =
    reverse (
      filter (λ k. str_eq k.organization_id organization_id && str_eq k.user_id user_id) s.api_keys)

-- The old key in its grace period.
unfoldable pub in_grace : Config → ℕ → ApiKey → ApiKey
in_grace config time k = record k {
  grace_expires_at = some (time + config.rotation_grace_hours * 60 * 60 * 1000);
  revoked_at = none;
  status = ApiKeyStatus.active;
}

unfoldable pub rotated_key : Host → Config → Draw → ApiKey → ApiKey
rotated_key host config draw current =
    let key = create_api_key draw config.api_key_prefix in
    record {
      id = draw.row_id;
      tenant_id = current.tenant_id;
      organization_id = current.organization_id;
      user_id = current.user_id;
      label = current.label;
      prefix = current.prefix;
      key_hash = host.sha256 key;
      last4 = last_chars 4 key;
      scopes = current.scopes;
      status = ApiKeyStatus.active;
      expires_at = none;
      grace_expires_at = none;
      rotated_from_id = some current.id;
      revoked_at = none;
      last_used_at = none;
    }

unfoldable pub rotate_tenant_api_key :
    Host
    → Config
    → Draw
    → String
    → String
    → String
    → Store
    → Result AuthError (Store × String × String)
rotate_tenant_api_key host config draw id organization_id user_id s =
    elim (find (is_key id organization_id user_id) s.api_keys) [
      | none ↦ err api_key_not_found
      | some current ↦ ok (
        record s {
          api_keys =
              update_where (λ k. str_eq k.id current.id) (in_grace config draw.time) s.api_keys
              ++ rotated_key host config draw current ∷ [];
        },
        draw.row_id,
        create_api_key draw config.api_key_prefix,
      )
    ]

unfoldable pub revoke_key : ℕ → ApiKey → ApiKey
revoke_key time k = record k { revoked_at = some time; status = ApiKeyStatus.revoked }

unfoldable pub revoke_tenant_api_key : ℕ → String → String → String → Store → Store
revoke_tenant_api_key time id organization_id user_id s = record s {
  api_keys = update_where (is_key id organization_id user_id) (revoke_key time) s.api_keys;
}

-- What `introspectApiKey` answers. Of a key that is not active the code answers the id alone.
pub data Introspection : Type 0 where
  unknown : Introspection
  inactive : String → Introspection
  active : ApiKey → Introspection

abbrev pub is_past : ℕ → Option ℕ → Bool
is_past time none = false
is_past time (some t) = ltb t time

unfoldable pub is_expired : ℕ → ApiKey → Bool
is_expired time k = is_past time k.expires_at || is_past time k.grace_expires_at

unfoldable pub is_revoked : ApiKey → Bool
is_revoked k =
    (elim k.status [ ApiKeyStatus.active ↦ false | ApiKeyStatus.revoked ↦ true ])
    || is_some k.revoked_at

unfoldable pub introspect_api_key : Host → ℕ → String → Store → Store × Introspection
introspect_api_key host time raw_token s =
    elim (find (λ k. str_eq k.key_hash (host.sha256 raw_token)) s.api_keys) [
      | none ↦ (s, unknown)
      | some k ↦ if is_expired time k || is_revoked k then (s, inactive k.id) else (
        record s {
          api_keys =
              update_where (λ x. str_eq x.id k.id) (λ x. record x { last_used_at = some time })
                s.api_keys;
        },
        active k,
      )
    ]

abbrev pub scope_eq : ApiKeyScope → ApiKeyScope → Bool
scope_eq agents_read agents_read = true
scope_eq agents_write agents_write = true
scope_eq workflows_trigger workflows_trigger = true
scope_eq webhooks_receive webhooks_receive = true
scope_eq _ _ = false

unfoldable pub verify_api_key_scope : Host → ℕ → ApiKeyScope → String → Store → Store × Bool
verify_api_key_scope host time required_scope token s =
    let found = introspect_api_key host time token s in
    (
      found.0,
      elim found.1 [
        | unknown ↦ false
        | inactive id ↦ false
        | active k ↦ any (scope_eq required_scope) k.scopes
      ],
    )
