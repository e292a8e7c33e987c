-- ===== src/Auth/Safety.antt =====
-- Who is let in.
use birthub_360_innovation.Base.{
  update_where, change_found, find-update_where, find-passes, ℕ, String, Bool, true, false, ◌&&◌,
  not, Option, none, some, ◌≡◌, ◌≢◌, refl, sym, ap, ◌∙◌, inl, inr, arith, find, if◌then◌else◌,
  is_some, str_eq, Bool-cases, Option-cases,
}
use birthub_360_innovation.Base.Result.{ok}
use birthub_360_innovation.Auth.{Session, Store, Host}
use birthub_360_innovation.Auth.Sessions.{revoke_all_sessions, revoke, is_of}
use birthub_360_innovation.Auth.ApiKeys.{introspect_api_key}
use birthub_360_innovation.Auth.Request.{
  AuthenticatedContext, authenticate_request, session_context, authenticate_session,
  authenticate_key, find_session, find_user, may_act, acting, is_live, given,
}
use birthub_360_innovation.Auth.Roles.{suspend_user, suspend}

abbrev pub owned : String → String → Option Session → Bool
owned organization_id user_id none = false
owned organization_id user_id (some x) = is_of organization_id user_id x

-- Whether a token is that of a session of a user in an organization.
abbrev pub is_owned : Host → String → String → String → Store → Bool
is_owned host token organization_id user_id s =
    owned organization_id user_id (find_session host token s)

authenticate_session-missing :
    (host : Host) (time : ℕ) (token : String) (s : Store)
    → find_session host token s ≡ none
    → (authenticate_session host time token s).1 ≡ none
unfolding authenticate_session
authenticate_session-missing host time token s missing = rw (missing, authenticate_session)

authenticate_session-found :
    (host : Host) (time : ℕ) (token : String) (s : Store) (x : Session)
    → find_session host token s ≡ some x
    → (authenticate_session host time token s).1
      ≡ (if is_live time x && may_act x.user_id s then some (session_context x) else none)
unfolding authenticate_session
authenticate_session-found host time token s x found =
    elim (Bool-cases (is_live time x && may_act x.user_id s)) [
      | inl fine ↦ rw (found, fine, authenticate_session)
      | inr late ↦ rw (found, late, authenticate_session)
    ]

is_live-revoked : (time : ℕ) (x : Session) → is_some x.revoked_at ≡ true → is_live time x ≡ false
unfolding is_live
is_live-revoked time x h = rw h

abbrev open_one : String → String → Session → Bool
open_one organization_id user_id y = is_of organization_id user_id y && not (is_some y.revoked_at)

module _ (host : Host) (time : ℕ) (organization_id user_id token : String) (s : Store) where
  find_session-revoke_all :
      find_session host token (revoke_all_sessions time organization_id user_id s).0
      ≡ change_found (open_one organization_id user_id) (revoke time) (find_session host token s)
  unfolding revoke_all_sessions find_session revoke
  find_session-revoke_all =
      find-update_where (λ y. str_eq y.token (host.sha256 token)) (open_one organization_id user_id)
        (revoke time) (λ y. refl) s.sessions

  may_act-revoke_all :
      (u : String) → may_act u (revoke_all_sessions time organization_id user_id s).0 ≡ may_act u s
  unfolding revoke_all_sessions may_act find_user
  may_act-revoke_all u = refl

  is_live-revoke_all :
      (later : ℕ) (x : Session)
      → is_of organization_id user_id x ≡ true
      → is_live later (if open_one organization_id user_id x then revoke time x else x) ≡ false
  unfolding revoke is_live
  is_live-revoke_all later x mine = elim (Bool-cases (is_some x.revoked_at)) [
    | inl gone ↦ rw (mine, gone, gone)
    | inr still ↦ rw (mine, still)
  ]

-- After all sessions of a user in an organization were revoked, none of their tokens is let in, at any
-- time, and every other token is answered as it would have been.
pub revoke_all_sessions_lem :
    (host : Host) (time later : ℕ) (organization_id user_id token : String) (s : Store)
    → (authenticate_session host later token
        (revoke_all_sessions time organization_id user_id s).0).1
      ≡ (if is_owned host token organization_id user_id s
          then none
          else (authenticate_session host later token s).1)
revoke_all_sessions_lem host time later organization_id user_id token s =
    let left = (revoke_all_sessions time organization_id user_id s).0 in
    let after = find_session-revoke_all host time organization_id user_id token s in
    elim (Option-cases (find_session host token s)) [
      | inl missing ↦ rw (
        authenticate_session-missing host later token left (rw (after, missing)),
        authenticate_session-missing host later token s missing,
        missing,
      )
      | inr (x, found) ↦
          rw
            (
              authenticate_session-found host later token left
                  (if open_one organization_id user_id x then revoke time x else x)
                  (rw (after, found)),
              authenticate_session-found host later token s x found,
              found,
            )
            (elim (Bool-cases (is_of organization_id user_id x)) [
              | inl mine ↦
                  rw (
                    is_live-revoke_all host time organization_id user_id token s later x mine,
                    mine,
                  )
              | inr other ↦
                  rw (other, may_act-revoke_all host time organization_id user_id token s x.user_id)
            ])
    ]

introspect_api_key-users :
    (host : Host) (time : ℕ) (token : String) (s : Store)
    → (introspect_api_key host time token s).0.users ≡ s.users
unfolding introspect_api_key
introspect_api_key-users host time token s = ground arith

may_act-introspect :
    (host : Host) (time : ℕ) (token user_id : String) (s : Store)
    → may_act user_id (introspect_api_key host time token s).0 ≡ may_act user_id s
unfolding may_act find_user
may_act-introspect host time token user_id s = rw (introspect_api_key-users host time token s)

authenticate_key-may_act :
    (host : Host) (time : ℕ) (token : String) (s : Store) (c : AuthenticatedContext)
    → (authenticate_key host time token s).1 ≡ some c
    → may_act c.user_id s ≡ true
unfolding authenticate_key
authenticate_key-may_act host time token s c h =
    sym (may_act-introspect host time token c.user_id s) ∙ ground (arith, h)

authenticate_session-may_act :
    (host : Host) (time : ℕ) (token : String) (s : Store) (c : AuthenticatedContext)
    → (authenticate_session host time token s).1 ≡ some c
    → may_act c.user_id s ≡ true
unfolding authenticate_session
authenticate_session-may_act host time token s c h = ground (arith, h)

-- Only a user who may act is let in.
authenticate_request-may_act :
    (host : Host) (time : ℕ) (key token : Option String) (s : Store) (c : AuthenticatedContext)
    → (authenticate_request host time key token s).1 ≡ some c
    → may_act c.user_id s ≡ true
unfolding authenticate_request
authenticate_request-may_act host time key token s c h = elim (Option-cases (given key)) [
  | inr (k, found) ↦
      authenticate_key-may_act host time k s c (rw (found, authenticate_request) at h)
  | inl no_key ↦ elim (Option-cases (given token)) [
    | inr (t, found) ↦
        authenticate_session-may_act host time t s c (rw (no_key, found, authenticate_request) at h)
    | inl no_token ↦ cc (rw (no_key, no_token, authenticate_request) at h)
  ]
]

may_act-suspended :
    (time : ℕ) (actor organization_id user_id : String) (s s' : Store)
    → suspend_user time actor organization_id user_id s ≡ ok s'
    → may_act user_id s' ≡ false
unfolding suspend_user suspend may_act find_user
may_act-suspended time actor organization_id user_id s s' e =
    elim (Option-cases (find_user user_id s)) [
      | inl missing ↦ cc (rw (missing, suspend_user) at e)
      | inr (u, found) ↦
          let users : update_where (λ x. str_eq x.id user_id) (suspend time) s.users ≡ s'.users =
            ground (arith, e, found) in
          let there =
            find-update_where (λ x. str_eq x.id user_id) (λ x. str_eq x.id user_id) (suspend time)
              (λ x. refl) s.users in
          let mine = find-passes (λ x. str_eq x.id user_id) s.users u found in
          ap (λ us. acting (find (λ x. str_eq x.id user_id) us)) (sym users)
          ∙ ap acting there
          ∙ rw (found, mine)
    ]

-- After a user was suspended, no session token and no API key is let in for that user, at any time, on the
-- store that is left.
pub suspend_user_lem :
    (host : Host) (time later : ℕ) (actor organization_id user_id : String)
    (key token : Option String) (s s' : Store) (c : AuthenticatedContext)
    → suspend_user time actor organization_id user_id s ≡ ok s'
    → (authenticate_request host later key token s').1 ≡ some c
    → c.user_id ≢ user_id
suspend_user_lem host time later actor organization_id user_id key token s s' c e h same =
    let acts = authenticate_request-may_act host later key token s' c h in
    let blocked : may_act c.user_id s' ≡ false =
      rw same (may_act-suspended time actor organization_id user_id s s' e) in
    cc (acts, blocked)
