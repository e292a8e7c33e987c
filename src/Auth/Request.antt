-- ===== src/Auth/Request.antt =====
-- `authenticateRequest` and `refreshSession`.
use birthub_360_innovation.Base.{
  update_where, ℕ, String, Bool, true, false, ◌&&◌, ◌||◌, Option, none, some, ltb, if◌then◌else◌,
  is_some, opt_str_eq, str_eq, find,
}
use birthub_360_innovation.Auth.{Organization, User, UserStatus, Session, Store, Host, Config, Draw}
use birthub_360_innovation.Auth.Sessions.{
  SessionTokens, session_tokens, create_session, revoke_all_sessions,
}
use birthub_360_innovation.Auth.ApiKeys.{introspect_api_key}
use birthub_360_innovation.Auth.ApiKeys.Introspection.{unknown, inactive, active}

-- The context of a request; `by_key` and `by_session` name the key or the session.
pub data AuthType : Type 0 where
  by_key by_session : String → AuthType

pub record AuthenticatedContext : Type 0 where
  pub auth_type : AuthType
  pub organization_id : String
  pub tenant_id : String
  pub user_id : String

unfoldable pub find_organization_by_reference : String → Store → Option Organization
find_organization_by_reference reference s =
    find
      (λ o.
        str_eq o.id reference || opt_str_eq o.slug (some reference) || str_eq o.tenant_id reference)
      s.organizations

unfoldable pub find_user : String → Store → Option User
find_user user_id s = find (λ u. str_eq u.id user_id) s.users

-- A user who is there and not suspended.
abbrev pub acting : Option User → Bool
acting none = false
acting (some u) = elim u.status as (λ x. Bool) [
  | UserStatus.active ↦ true
  | UserStatus.suspended ↦ false
]

unfoldable pub may_act : String → Store → Bool
may_act user_id s = acting (find_user user_id s)

-- A token that is missing or empty is not read.
abbrev pub given : Option String → Option String
given none = none
given (some t) = if str_eq t "" then none else some t

unfoldable pub authenticate_key : Host → ℕ → String → Store → Store × Option AuthenticatedContext
authenticate_key host time token s =
    let found = introspect_api_key host time token s in
    elim found.1 [
      | unknown ↦ (found.0, none)
      | inactive id ↦ (found.0, none)
      | active k ↦
          if str_eq k.user_id "" || str_eq k.tenant_id ""
          then (found.0, none)
          else elim (find_organization_by_reference k.tenant_id found.0) [
            | none ↦ (found.0, none)
            | some o ↦
                if may_act k.user_id found.0
                then (
                  found.0,
                  some (record {
                    auth_type = by_key k.id;
                    organization_id = o.id;
                    tenant_id = k.tenant_id;
                    user_id = k.user_id;
                  }),
                )
                else (found.0, none)
          ]
    ]

unfoldable pub find_session : Host → String → Store → Option Session
find_session host token s = find (λ x. str_eq x.token (host.sha256 token)) s.sessions

unfoldable pub is_live : ℕ → Session → Bool
is_live time x =
    if is_some x.revoked_at then false else if ltb x.expires_at time then false else true

abbrev pub session_context : Session → AuthenticatedContext
session_context x = record {
  auth_type = by_session x.id;
  organization_id = x.organization_id;
  tenant_id = x.tenant_id;
  user_id = x.user_id;
}

unfoldable pub authenticate_session :
    Host → ℕ → String → Store → Store × Option AuthenticatedContext
authenticate_session host time token s = elim (find_session host token s) [
  | none ↦ (s, none)
  | some x ↦
      if is_live time x && may_act x.user_id s
      then (
        record s {
          sessions =
              update_where (λ y. str_eq y.id x.id) (λ y. record y { last_activity_at = time })
                s.sessions;
        },
        some (session_context x),
      )
      else (s, none)
]

unfoldable pub authenticate_request :
    Host → ℕ → Option String → Option String → Store → Store × Option AuthenticatedContext
authenticate_request host time api_key_token session_token s = elim (given api_key_token) [
  | some token ↦ authenticate_key host time token s
  | none ↦ elim (given session_token) [
    | none ↦ (s, none)
    | some token ↦ authenticate_session host time token s
  ]
]

-- What `refreshSession` answers: `breached: true`, `breached: false` alone, or a new session.
pub data Refreshed : Type 0 where
  breached refused : Refreshed
  renewed : Session → String → SessionTokens → Refreshed

unfoldable pub may_refresh : ℕ → Session → Bool
may_refresh time x = elim x.refresh_expires_at [
  | none ↦ false
  | some t ↦ if is_some x.revoked_at then false else if ltb t time then false else true
]

-- The old session is revoked in favour of the new one.
unfoldable pub replace : ℕ → String → Session → Session
replace time next x = record x { replaced_by_session_id = some next; revoked_at = some time }

unfoldable pub refresh_session :
    Host → Config → Draw → Option String → Option String → String → Store → Store × Refreshed
refresh_session host config draw ip_address user_agent refresh_token s =
    let hash = host.sha256 refresh_token in
    elim (find (λ x. opt_str_eq x.refresh_token_hash (some hash)) s.sessions) [
      | none ↦
          elim (find (λ x. opt_str_eq x.refresh_token_hash (some hash) && is_some x.revoked_at)
            s.sessions) [
              | none ↦ (s, refused)
              | some x ↦ ((revoke_all_sessions draw.time x.organization_id x.user_id s).0, breached)
            ]
      | some current ↦
          if may_refresh draw.time current
          then (let created =
                create_session host config draw
                  (record {
                    ip_address = ip_address;
                    organization_id = current.organization_id;
                    tenant_id = current.tenant_id;
                    user_agent = user_agent;
                    user_id = current.user_id;
                  })
                  s in
              (
                record (created.0) {
                  sessions =
                      update_where (λ x. str_eq x.id current.id) (replace draw.time draw.row_id)
                        created.0.sessions;
                },
                renewed current draw.row_id (session_tokens config draw),
              ))
          else (s, refused)
    ]
