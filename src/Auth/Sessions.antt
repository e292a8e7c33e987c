-- ===== src/Auth/Sessions.antt =====
-- `createSession`, and the functions that revoke and list sessions.
use birthub_360_innovation.Base.{
  update_where, ℕ, ◌+◌, ◌*◌, String, Bool, ◌&&◌, not, List, [], ◌∷◌, ◌++◌, Option, none, some, leb,
  if◌then◌else◌, is_some, str_eq, length, filter,
}
use birthub_360_innovation.Auth.{Session, Store, Host, Config, Draw}

pub record SessionInput : Type 0 where
  pub ip_address : Option String
  pub organization_id : String
  pub tenant_id : String
  pub user_agent : Option String
  pub user_id : String

pub record SessionTokens : Type 0 where
  pub csrf_token : String
  pub expires_at : ℕ
  pub refresh_token : String
  pub token : String

unfoldable pub now_plus_hours : ℕ → ℕ → ℕ
now_plus_hours time hours = time + hours * 60 * 60 * 1000

unfoldable pub now_plus_minutes : ℕ → ℕ → ℕ
now_plus_minutes time minutes = time + minutes * 60 * 1000

unfoldable pub new_session : Host → Config → Draw → SessionInput → Session
new_session host config draw input = record {
  id = draw.row_id;
  tenant_id = input.tenant_id;
  token = host.sha256 draw.access_token;
  refresh_token_hash = some (host.sha256 draw.refresh_token);
  csrf_token = draw.csrf_token;
  organization_id = input.organization_id;
  user_id = input.user_id;
  expires_at = now_plus_minutes draw.time config.token_ttl_minutes;
  refresh_expires_at = some (now_plus_hours draw.time config.session_ttl_hours);
  last_activity_at = draw.time;
  revoked_at = none;
  replaced_by_session_id = none;
  ip_address = input.ip_address;
  user_agent = input.user_agent;
}

unfoldable pub session_tokens : Config → Draw → SessionTokens
session_tokens config draw = record {
  csrf_token = draw.csrf_token;
  expires_at = now_plus_minutes draw.time config.token_ttl_minutes;
  refresh_token = draw.refresh_token;
  token = draw.access_token;
}

unfoldable pub create_session :
    Host → Config → Draw → SessionInput → Store → Store × String × SessionTokens
create_session host config draw input s = (
  record s { sessions = s.sessions ++ new_session host config draw input ∷ [] },
  draw.row_id,
  session_tokens config draw,
)

unfoldable pub revoke : ℕ → Session → Session
revoke time x = record x { revoked_at = some time }

abbrev pub is_of : String → String → Session → Bool
is_of organization_id user_id x =
    str_eq x.organization_id organization_id && str_eq x.user_id user_id

-- The answer of `updateMany` is the number of rows.
unfoldable pub revoke_all_sessions : ℕ → String → String → Store → Store × ℕ
revoke_all_sessions time organization_id user_id s =
    let open_one = λ (x : Session). is_of organization_id user_id x && not (is_some x.revoked_at) in
    (
      record s { sessions = update_where open_one (revoke time) s.sessions },
      length (filter open_one s.sessions),
    )

unfoldable pub revoke_current_session : ℕ → String → Store → Store
revoke_current_session time session_id s = record s {
  sessions = update_where (λ x. str_eq x.id session_id) (revoke time) s.sessions;
}

unfoldable pub revoke_session_by_id : ℕ → String → String → String → Store → Store × ℕ
revoke_session_by_id time organization_id session_id user_id s =
    let this_one = λ (x : Session). str_eq x.id session_id && is_of organization_id user_id x in
    (
      record s { sessions = update_where this_one (revoke time) s.sessions },
      length (filter this_one s.sessions),
    )

-- The order by the last activity, the latest first.
unfoldable pub insert_desc : Session → List Session → List Session
insert_desc x [] = x ∷ []
insert_desc x (y ∷ ys) =
    let rest = insert_desc x ys in
    if leb y.last_activity_at x.last_activity_at then x ∷ y ∷ ys else y ∷ rest

unfoldable pub sort_desc : List Session → List Session
sort_desc [] = []
sort_desc (x ∷ xs) = insert_desc x (sort_desc xs)

unfoldable pub list_active_sessions : String → String → Store → List Session
list_active_sessions organization_id user_id s =
    sort_desc
      (filter (λ x. is_of organization_id user_id x && not (is_some x.revoked_at)) s.sessions)
