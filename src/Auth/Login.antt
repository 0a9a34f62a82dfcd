-- ===== src/Auth/Login.antt =====
-- backend/app/api/auth.py: log in, log out, and set the credentials. A handler takes the time, the
-- token and the salt that it draws, and what it changes of the response's cookie is a value.
pub mod Sessions
pub mod Passwords
mod Tests
use ham_spectrum_analysis.Prelude.{
  ℕ, ◌+◌, ◌*◌, Bool, true, false, ◌&&◌, ◌||◌, not, Option, none, some, List, [], ◌∷◌, leb, ltb,
  length, is_empty, if◌then◌else◌,
}
use ham_spectrum_analysis.Text.{Text, same, strip}
use ham_spectrum_analysis.Auth.Header.{Primitives, parse_basic_auth}
use ham_spectrum_analysis.Auth.Server.{
  Server, Environment, AuthConfig, truthy, or_empty, is_text, save_auth_session, clear_auth_session,
  save_auth_config, reload_auth_from_db,
}
use ham_spectrum_analysis.Auth.Access.{AuthRequest, password_matches, get_authenticated_user}

-- `set_cookie` with its token, and `delete_cookie`.
pub data Cookie : Type 0 where
  unchanged delete_cookie : Cookie
  set_cookie : Text → Cookie

-- The answers of the handlers; the message of `saved` and `cleared` is left out.
pub data AuthReply : Type 0 where
  open_access : AuthReply
  welcome : (user : Text) → AuthReply
  saved : (user : Text) → AuthReply
  cleared goodbye : AuthReply
  http_error : (status : ℕ) → AuthReply

-- What the clock and the random sources give one call.
pub record Draw : Type 0 where
  pub now : ℕ
  pub token : Text
  pub salt : Text

-- 24 hours in microseconds.
abbrev pub session_length : ℕ
session_length = 24 * 3600 * 1000000

-- One reading of the clock stands for the two that the source makes.
pub set_session_cookie : Primitives → Draw → (user : Text) → Server → Cookie × Server
set_session_cookie p draw user server = (
  set_cookie draw.token,
  save_auth_session (p.isoformat draw.now) (p.sha256 draw.token)
      (p.isoformat (draw.now + session_length)) user server,
)

-- With a request, as both callers have one: a request without the cookie ends no session.
pub clear_session_cookie : Primitives → AuthRequest → Server → Cookie × Server
clear_session_cookie p request server = (
  delete_cookie,
  if is_empty request.session_token
      then server
      else clear_auth_session (p.sha256 request.session_token) server,
)

-- A reply beside what a helper made of the cookie and the server.
abbrev pub answer : AuthReply → Cookie × Server → AuthReply × Cookie × Server
answer reply (cookie, server) = (reply, cookie, server)

login_as : Primitives → Draw → (user password : Text) → Server → AuthReply × Cookie × Server
unfolding set_session_cookie
login_as p draw user password server =
    if is_empty user || is_empty password
    then (http_error 422, unchanged, server)
    else if not (is_text user server.credentials.auth_user)
    then (http_error 403, unchanged, server)
    else if password_matches p server.credentials password
    then answer (welcome user) (set_session_cookie p draw user server)
    else (http_error 403, unchanged, server)

-- The fields of the payload, of which `none` is a missing one.
pub auth_login :
    Primitives → Draw → (user password : Option Text) → Server → AuthReply × Cookie × Server
unfolding login_as
auth_login p draw user password server =
    if server.credentials.auth_required
    then login_as p draw (strip (or_empty user)) (strip (or_empty password)) server
    else (open_access, unchanged, server)

pub auth_logout : Primitives → AuthRequest → Server → AuthReply × Cookie × Server
unfolding clear_session_cookie
auth_logout p request server = answer goodbye (clear_session_cookie p request server)

-- `_verify_request_credentials`; `parse_basic_auth` of an empty header is None.
matches_request : Primitives → Server → Option (Text × Text) → Bool
matches_request p server none = false
matches_request p server (some (user, password)) =
    is_text user server.credentials.auth_user && password_matches p server.credentials password

verify_request_credentials : Primitives → AuthRequest → Server → Bool
unfolding matches_request
verify_request_credentials p request server =
    matches_request p server (parse_basic_auth p request.authorization)

pub env_active : Server → Bool
env_active server =
    truthy server.env.env_auth_user
    && truthy server.env.env_auth_pass
    && not server.stored.auth_enabled
    && server.credentials.auth_required

store_credentials :
    Primitives → Draw → AuthRequest → (user password : Text) → Server → AuthReply × Cookie × Server
unfolding set_session_cookie clear_session_cookie
store_credentials p draw request user password server =
    if not (is_empty user) && not (is_empty password)
    then if ltb 64 (length user) || ltb 72 (length password)
      then (http_error 422, unchanged, server)
      else answer (saved user) (
          set_session_cookie p draw user
            (reload_auth_from_db (save_auth_config user (p.hashpw password draw.salt) server)))
    else answer cleared
        (clear_session_cookie p request (reload_auth_from_db (save_auth_config [] [] server)))

-- Who may change the credentials, where there are any.
may_change : Primitives → AuthRequest → Option Text × Server → Bool × Server
unfolding verify_request_credentials
may_change p request (user, server) =
    (truthy user || verify_request_credentials p request server, server)

pub allowed : Primitives → Draw → AuthRequest → Server → Bool × Server
unfolding may_change
allowed p draw request server =
    if server.credentials.auth_required
    then may_change p request (get_authenticated_user p draw.now request server)
    else (true, server)

change_if :
    Primitives
    → Draw
    → AuthRequest
    → (user password : Text) → Bool × Server
    → AuthReply × Cookie × Server
unfolding store_credentials
change_if p draw request user password (false, server) = (http_error 401, unchanged, server)
change_if p draw request user password (true, server) =
    store_credentials p draw request user password server

pub set_credentials :
    Primitives
    → Draw
    → AuthRequest
    → (user password : Option Text) → Server
    → AuthReply × Cookie × Server
unfolding change_if env_active
set_credentials p draw request user password server =
    if env_active server
    then (http_error 403, unchanged, server)
    else change_if p draw request (strip (or_empty user)) (strip (or_empty password))
        (allowed p draw request server)
