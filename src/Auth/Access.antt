-- ===== src/Auth/Access.antt =====
-- backend/app/dependencies/auth.py: is a request let in? A request is its session cookie and its
-- Authorization header, empty where it has none. A time is in microseconds, in UTC.
pub mod Outcome
use ham_spectrum_analysis.Prelude.{
  ℕ, Bool, true, false, ◌&&◌, ◌||◌, not, Option, none, some, List, [], ◌∷◌, leb, is_empty,
  if◌then◌else◌,
}
use ham_spectrum_analysis.Text.{Text, same}
use ham_spectrum_analysis.Auth.Header.{Primitives, verify_password, parse_basic_auth}
use ham_spectrum_analysis.Auth.Server.{
  Server, Session, Credentials, truthy, or_empty, is_text, get_auth_session_by_hash,
  clear_auth_session,
}

pub record AuthRequest : Type 0 where
  pub session_token : Text
  pub authorization : Text

-- The end of `_verify_credentials`, which five functions of the source share.
unfoldable pub password_matches : Primitives → Credentials → Text → Bool
password_matches p c password =
    if c.auth_pass_is_hashed
    then verify_password p password (or_empty c.auth_pass)
    else is_text password c.auth_pass

pub verify_credentials : Primitives → Credentials → (user password : Text) → Bool
verify_credentials p c user password =
    not (is_empty user)
    && not (is_empty password)
    && is_text user c.auth_user
    && password_matches p c password

-- The session behind the test for a text in `expires_at`, which the table has in every row.
unfoldable pub live_user :
    Primitives → (now : ℕ) → Text → Session → Option ℕ → Server → Option Text × Server
live_user p now hash session none server = (none, clear_auth_session hash server)
live_user p now hash session (some expires_at) server =
    if leb expires_at now
    then (none, clear_auth_session hash server)
    else if is_empty session.user
    then (server.credentials.auth_user, server)
    else (some session.user, server)

unfoldable pub found_user :
    Primitives → (now : ℕ) → Text → Option Session → Server → Option Text × Server
unfolding live_user
found_user p now hash none server = (none, server)
found_user p now hash (some session) server =
    if is_empty session.expires_at
    then (none, server)
    else live_user p now hash session (p.fromisoformat session.expires_at) server

unfoldable pub verify_session_token :
    Primitives → (now : ℕ) → (session_token : Text) → Server → Option Text × Server
unfolding found_user
verify_session_token p now session_token server =
    if is_empty session_token
    then (none, server)
    else let hash = p.sha256 session_token in
      found_user p now hash (get_auth_session_by_hash hash server) server

-- The user that the header names, where its password is right.
unfoldable pub header_user : Primitives → Credentials → Option (Text × Text) → Option Text
unfolding verify_credentials
header_user p c none = none
header_user p c (some (user, password)) =
    if verify_credentials p c user password then some user else none

unfoldable pub user_or_header :
    Primitives → AuthRequest → Option Text × Server → Option Text × Server
unfolding header_user
user_or_header p request (user, server) =
    if truthy user
    then (user, server)
    else (header_user p server.credentials (parse_basic_auth p request.authorization), server)

unfoldable pub get_authenticated_user :
    Primitives → (now : ℕ) → AuthRequest → Server → Option Text × Server
unfolding user_or_header
get_authenticated_user p now request server =
    if server.credentials.auth_required
    then user_or_header p request (verify_session_token p now request.session_token server)
    else (none, server)

-- What a check ends in: the HTTPException of a status, or a TypeError.
pub data Access : Type 0 where
  granted unauthorized forbidden type_error : Access

-- The function unpacks what `parse_basic_auth` returns, which may be None.
check_header : Primitives → Credentials → Option (Text × Text) → Access
check_header p c none = type_error
check_header p c (some (user, password)) =
    if is_empty user || is_empty password
    then unauthorized
    else if not (is_text user c.auth_user)
    then forbidden
    else if password_matches p c password
    then granted
    else forbidden

pub check_user : Primitives → AuthRequest → Option Text × Server → Access × Server
unfolding check_header
check_user p request (user, server) =
    if truthy user
    then (granted, server)
    else if is_empty request.authorization
    then (unauthorized, server)
    else (check_header p server.credentials (parse_basic_auth p request.authorization), server)

pub verify_basic_auth : Primitives → (now : ℕ) → AuthRequest → Server → Access × Server
unfolding check_user
verify_basic_auth p now request server =
    if server.credentials.auth_required
    then check_user p request (get_authenticated_user p now request server)
    else (granted, server)

-- `none` is a TypeError.
optional_header : Primitives → Credentials → Option (Text × Text) → Option Bool
optional_header p c none = none
optional_header p c (some (user, password)) = some (
    not (is_empty user)
    && not (is_empty password)
    && is_text user c.auth_user
    && password_matches p c password)

optional_user : Primitives → AuthRequest → Option Text × Server → Option Bool × Server
unfolding optional_header
optional_user p request (user, server) =
    if truthy user
    then (some true, server)
    else if is_empty request.authorization
    then (some false, server)
    else (optional_header p server.credentials (parse_basic_auth p request.authorization), server)

optional_verify_basic_auth : Primitives → (now : ℕ) → AuthRequest → Server → Option Bool × Server
unfolding optional_user
optional_verify_basic_auth p now request server =
    if truthy server.credentials.auth_user && truthy server.credentials.auth_pass
    then optional_user p request (get_authenticated_user p now request server)
    else (some false, server)
