-- ===== src/Auth/Refresh.antt =====
-- What a refresh token is good for.
use birthub_360_innovation.Base.{
  find-update_where, find-append, find-none, ℕ, String, Bool, true, false, ◌&&◌, Option, none, some,
  ◌≡◌, ◌≢◌, refl, sym, ap, ◌∙◌, inl, inr, arith, find, is_some, opt_str_eq, str_eq, str_eq_refl,
  Bool-cases, Option-cases, subst,
}
use birthub_360_innovation.Auth.{Session, Store, Host, Config, Draw}
use birthub_360_innovation.Auth.Sessions.{SessionTokens, create_session}
use birthub_360_innovation.Auth.Request.{
  refresh_session, breached, refused, renewed, may_refresh, replace,
}

abbrev pub bears : Host → String → Session → Bool
bears host token x = opt_str_eq x.refresh_token_hash (some (host.sha256 token))

pub refresh_session-missing :
    (host : Host) (config : Config) (draw : Draw) (ip_address user_agent : Option String)
    (token : String) (s : Store)
    → find (bears host token) s.sessions ≡ none
    → refresh_session host config draw ip_address user_agent token s ≡ (s, refused)
unfolding refresh_session
refresh_session-missing host config draw ip_address user_agent token s missing =
    let still : find (λ x. bears host token x && is_some x.revoked_at) s.sessions ≡ none =
      find-none (bears host token) (λ x. bears host token x && is_some x.revoked_at) (λ x h. rw h)
        s.sessions missing in
    rw (missing, still, refresh_session)

-- `refreshSession` never answers that a token was breached.
pub refresh_session-ne-breached :
    (host : Host) (config : Config) (draw : Draw) (ip_address user_agent : Option String)
    (token : String) (s : Store)
    → (refresh_session host config draw ip_address user_agent token s).1 ≢ breached
unfolding refresh_session
refresh_session-ne-breached host config draw ip_address user_agent token s =
    elim (Option-cases (find (bears host token) s.sessions)) [
      | inl missing ↦
          rw (refresh_session-missing host config draw ip_address user_agent token s missing)
            (λ e. cc)
      | inr (x, found) ↦ elim (Bool-cases (may_refresh draw.time x)) [
        | inl fine ↦ rw (found, fine, refresh_session) (λ e. cc)
        | inr late ↦ rw (found, late, refresh_session) (λ e. cc)
      ]
    ]

pub may_refresh-revoked :
    (time : ℕ) (x : Session) → is_some x.revoked_at ≡ true → may_refresh time x ≡ false
unfolding may_refresh
may_refresh-revoked time x h = ground (arith, h)

pub refresh_session-revoked :
    (host : Host) (config : Config) (draw : Draw) (ip_address user_agent : Option String)
    (token : String) (s : Store) (x : Session)
    → find (bears host token) s.sessions ≡ some x
    → is_some x.revoked_at ≡ true
    → refresh_session host config draw ip_address user_agent token s ≡ (s, refused)
unfolding refresh_session
refresh_session-revoked host config draw ip_address user_agent token s x found gone =
    rw (found, may_refresh-revoked draw.time x gone, refresh_session)

-- After a session was renewed with a refresh token, a call with that token on the store that is left, at
-- whatever time, is refused and changes nothing.
pub refresh_session_once :
    (host : Host) (config later_config : Config) (draw later_draw : Draw)
    (ip_address user_agent later_ip later_agent : Option String) (token id : String) (s s' : Store)
    (old : Session) (tokens : SessionTokens)
    → refresh_session host config draw ip_address user_agent token s ≡ (s', renewed old id tokens)
    → refresh_session host later_config later_draw later_ip later_agent token s' ≡ (s', refused)
unfolding refresh_session create_session replace
refresh_session_once host config later_config draw later_draw ip_address user_agent later_ip
      later_agent token id s s' old tokens e =
    elim (Option-cases (find (bears host token) s.sessions)) [
      | inl missing ↦
          let none_given =
            refresh_session-missing host config draw ip_address user_agent token s missing in
          cc (ap (λ z. z.1) (sym none_given ∙ e))
      | inr (x, found) ↦ elim (Bool-cases (may_refresh draw.time x)) [
        | inl fine ↦
            let left = (refresh_session host config draw ip_address user_agent token s).0 in
            let there : find (bears host token) left.sessions
                ≡ some (replace draw.time draw.row_id x) =
              rw (found, fine, refresh_session)
                (rw (
                  find-update_where (bears host token) (λ y. str_eq y.id x.id)
                      (replace draw.time draw.row_id) (λ y. refl),
                  find-append (bears host token) s.sessions,
                  found,
                  str_eq_refl x.id,
                )) in
            subst
              (λ t.
                refresh_session host later_config later_draw later_ip later_agent token t
                ≡ (t, refused))
              (ap (λ z. z.0) e)
              (refresh_session-revoked host later_config later_draw later_ip later_agent token left
                (replace draw.time draw.row_id x) there refl)
        | inr late ↦ cc (ap (λ z. z.1) (rw (found, late, refresh_session) at e))
      ]
    ]
