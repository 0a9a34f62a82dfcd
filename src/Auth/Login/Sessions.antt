-- ===== src/Auth/Login/Sessions.antt =====
-- From a login to the end of its session.
use ham_spectrum_analysis.Prelude.{
  ℕ, ◌+◌, ◌≡◌, true, false, Option, none, some, ltb, is_empty, if◌then◌else◌, refl, sym, ap, subst,
  ◌∙◌, arith, List, [], ◌∷◌, ◌⊎◌, inl, inr,
}
use ham_spectrum_analysis.Text.{Text, same_self, strip}
use ham_spectrum_analysis.Auth.Header.{Primitives, parse_basic_auth-nil}
use ham_spectrum_analysis.Auth.Server.{
  Server, Session, truthy, or_empty, find_session, remove_session, get_auth_session_by_hash,
  save_auth_session, clear_auth_session,
}
use ham_spectrum_analysis.Auth.Access.{
  AuthRequest, found_user, live_user, verify_session_token, user_or_header, get_authenticated_user,
  header_user,
}
use ham_spectrum_analysis.Auth.Login.{
  Cookie, set_cookie, welcome, Draw, session_length, set_session_cookie, login_as, auth_login,
  auth_logout, clear_session_cookie,
}

-- The answer to a request with the cookie of a session that ends at a time.
abbrev pub answer_until :
    Primitives → (token user : Text) → (ends later : ℕ) → Server → Option Text × Server
answer_until p token user ends later after =
    if ltb later ends then (some user, after) else (none, clear_auth_session (p.sha256 token) after)

set_session_cookie-verify :
    (p : Primitives) (draw : Draw) (user : Text) (server : Server) (later : ℕ)
    → ((t : ℕ) → p.fromisoformat (p.isoformat t) ≡ some t)
    → ((t : ℕ) → is_empty (p.isoformat t) ≡ false)
    → is_empty user ≡ false
    → is_empty draw.token ≡ false
    → let after = (set_session_cookie p draw user server).1 in
      verify_session_token p later draw.token after
      ≡ answer_until p draw.token user (draw.now + session_length) later after
unfolding set_session_cookie verify_session_token found_user live_user save_auth_session
    get_auth_session_by_hash
set_session_cookie-verify p draw user server later read dated hu ht = ground (
  arith,
  hu,
  ht,
  read (draw.now + session_length),
  dated (draw.now + session_length),
  same_self (p.sha256 draw.token),
)

-- What is known of a login that was welcome.
abbrev IsLogin : Primitives → Draw → (name : Text) → Server → Cookie → Server → Type 0
IsLogin p draw name server cookie after =
    (server.credentials.auth_required ≡ true)
    × (is_empty name ≡ false)
    × (cookie ≡ set_cookie draw.token)
    × (after ≡ (set_session_cookie p draw name server).1)

login_as-IsLogin :
    (p : Primitives) (draw : Draw) (user password name : Text) (cookie : Cookie)
    (server after : Server)
    → server.credentials.auth_required ≡ true
    → login_as p draw user password server ≡ (welcome name, cookie, after)
    → IsLogin p draw name server cookie after
unfolding login_as set_session_cookie
login_as-IsLogin p draw user password name cookie server after hr e = ground (arith, hr, e)

auth_login-IsLogin :
    (p : Primitives) (draw : Draw) (user password : Option Text) (name : Text) (cookie : Cookie)
    (server after : Server)
    → auth_login p draw user password server ≡ (welcome name, cookie, after)
    → IsLogin p draw name server cookie after
unfolding auth_login
auth_login-IsLogin p draw user password name cookie server after e = ground (
  arith,
  e,
  login_as-IsLogin p draw (strip (or_empty user)) (strip (or_empty password)) name cookie server
      after,
)

find-remove_session :
    (hash : Text) (sessions : List Session)
    → find_session hash (remove_session hash sessions) ≡ none
find-remove_session hash [] = refl
find-remove_session hash (s ∷ sessions) = ground (arith, find-remove_session hash sessions)

abbrev pub cookie_only : Text → AuthRequest
cookie_only token = record { session_token = token; authorization = [] }

-- No session is left of a token that was logged out.
auth_logout-verify :
    (p : Primitives) (token : Text) (server : Server) (later : ℕ)
    → is_empty (p.sha256 token) ≡ false
    → (verify_session_token p later token (auth_logout p (cookie_only token) server).2).0 ≡ none
unfolding auth_logout clear_session_cookie clear_auth_session verify_session_token found_user
    get_auth_session_by_hash
auth_logout-verify p token server later hashed =
    ground (arith, hashed, find-remove_session (p.sha256 token) server.sessions)

-- A request that has a cookie alone is answered as its session says.
get_authenticated_user-cookie :
    (p : Primitives) (token : Text) (server after : Server) (later : ℕ) (who : Option Text)
    → server.credentials.auth_required ≡ true
    → verify_session_token p later token server ≡ (who, after)
    → (truthy who ≡ true) ⊎ (who ≡ none)
    → get_authenticated_user p later (cookie_only token) server ≡ (who, after)
unfolding get_authenticated_user user_or_header header_user
get_authenticated_user-cookie p token server after later who hr e (inl h) = ground (arith, hr, e, h)
get_authenticated_user-cookie p token server after later who hr e (inr h) =
    ground (arith, hr, e, h, parse_basic_auth-nil p)

made-required :
    (p : Primitives) (draw : Draw) (name : Text) (server after : Server)
    → server.credentials.auth_required ≡ true
    → after ≡ (set_session_cookie p draw name server).1
    → after.credentials.auth_required ≡ true
unfolding set_session_cookie save_auth_session
made-required p draw name server after h e = ap (λ s. s.credentials.auth_required) e ∙ h

logged_out :
    (p : Primitives) (token : Text) (server : Server) (later : ℕ)
    → is_empty (p.sha256 token) ≡ false
    → server.credentials.auth_required ≡ true
    → let request = cookie_only token in
      (get_authenticated_user p later request (auth_logout p request server).2).0 ≡ none
unfolding auth_logout clear_session_cookie clear_auth_session
logged_out p token server later hashed required =
    let left = (auth_logout p (cookie_only token) server).2 in
    let gone = auth_logout-verify p token server later hashed in
    let kept : left.credentials.auth_required ≡ true = ground (arith, required) in
    let (who, rest) = verify_session_token p later token left in
    ap (λ r. r.0) (get_authenticated_user-cookie p token left rest later who kept refl (inr gone))
    ∙ gone

answer_until-user :
    (p : Primitives) (token user : Text) (ends later : ℕ) (after : Server)
    → is_empty user ≡ false
    → let who = (answer_until p token user ends later after).0 in (truthy who ≡ true) ⊎ (who ≡ none)
answer_until-user p token user ends later after hu = ground (arith, hu)

-- A login that is welcome sets a cookie. As long as 24 hours have not passed, a request with that
-- cookie is a request of this user, and afterwards it is nobody's and ends the session. If the token
-- was logged out, such a request is nobody's at any time. Here texts of times are read back, and
-- tokens and hashes are not empty.
pub auth_login-session :
    (p : Primitives) (draw : Draw) (user password : Option Text) (name : Text) (cookie : Cookie)
    (server after : Server) (later : ℕ)
    → ((t : ℕ) → p.fromisoformat (p.isoformat t) ≡ some t)
    → ((t : ℕ) → is_empty (p.isoformat t) ≡ false)
    → is_empty draw.token ≡ false
    → is_empty (p.sha256 draw.token) ≡ false
    → auth_login p draw user password server ≡ (welcome name, cookie, after)
    → let request = cookie_only draw.token in
      (cookie ≡ set_cookie draw.token)
      × (get_authenticated_user p later request after
          ≡ answer_until p draw.token name (draw.now + session_length) later after)
      × ((get_authenticated_user p later request (auth_logout p request after).2).0 ≡ none)
auth_login-session p draw user password name cookie server after later read dated ht hh e =
    let (required, named, cookie_set, made) =
      auth_login-IsLogin p draw user password name cookie server after e in
    let ends = draw.now + session_length in
    let verified =
      subst
        (λ s.
          verify_session_token p later draw.token s ≡ answer_until p draw.token name ends later s)
        (sym made) (set_session_cookie-verify p draw name server later read dated named ht) in
    let kept = made-required p draw name server after required made in
    let who = (answer_until p draw.token name ends later after).0 in
    (
      cookie_set,
      get_authenticated_user-cookie p draw.token after
          (answer_until p draw.token name ends later after).1 later who kept verified
          (answer_until-user p draw.token name ends later after named),
      logged_out p draw.token after later hh kept,
    )
