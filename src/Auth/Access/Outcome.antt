-- ===== src/Auth/Access/Outcome.antt =====
-- Who is let in, and how a request is refused.
use ham_spectrum_analysis.Prelude.{
  ℕ, Bool, true, false, ◌≡◌, ◌↔◌, ◌⊎◌, Option, none, some, is_empty, refl, subst, arith,
  if◌then◌else◌,
}
use ham_spectrum_analysis.Text.{Text}
use ham_spectrum_analysis.Auth.Header.{Primitives, parse_basic_auth}
use ham_spectrum_analysis.Auth.Server.{Server, Credentials, truthy, clear_auth_session}
use ham_spectrum_analysis.Auth.Access.{
  AuthRequest, Access, granted, type_error, verify_credentials, verify_session_token, header_user,
  user_or_header, found_user, live_user, check_user, check_header, get_authenticated_user,
  verify_basic_auth,
}

-- The header names a user and a password that are right.
abbrev pub IsRight : Primitives → Credentials → Option (Text × Text) → Type 0
IsRight p c none = ⊥
IsRight p c (some (user, password)) = verify_credentials p c user password ≡ true

-- No live session, and a header from which no credentials can be read.
abbrev pub IsUnreadable : Primitives → AuthRequest → Option Text → Type 0
IsUnreadable p request who =
    (truthy who ≡ false)
    × (is_empty request.authorization ≡ false)
    × (parse_basic_auth p request.authorization ≡ none)

module _ (p : Primitives) (request : AuthRequest) (who : Option Text) where
  Decided : Credentials → Option (Text × Text) → Access → Type 0
  Decided c parsed outcome =
      ((outcome ≡ granted) ↔ ((truthy who ≡ true) ⊎ IsRight p c parsed))
      × ((outcome ≡ type_error) ↔ IsUnreadable p request who)

  check_user-Decided :
      (server : Server) (parsed : Option (Text × Text))
      → parse_basic_auth p request.authorization ≡ parsed
      → Decided server.credentials parsed
          (check_user p request (user_or_header p request (who, server))).0
  unfolding Decided check_user user_or_header header_user check_header verify_credentials
  check_user-Decided server none e = ground (arith, e)
  check_user-Decided server (some (user, password)) e = ground (arith, e)

-- Looking up a session may end it; the credentials stay.
verify_session_token-credentials :
    (p : Primitives) (now : ℕ) (token : Text) (server : Server)
    → (verify_session_token p now token server).1.credentials ≡ server.credentials
unfolding verify_session_token found_user live_user clear_auth_session
verify_session_token-credentials p now token server = ground arith

gate :
    {R N : Type 0} (required : Bool) (outcome inner : Access)
    → outcome ≡ (if required then inner else granted)
    → ((inner ≡ granted) ↔ R) × ((inner ≡ type_error) ↔ N)
    → ((outcome ≡ granted) ↔ ((required ≡ false) ⊎ R))
      × ((outcome ≡ type_error) ↔ ((required ≡ true) × N))
gate true outcome inner e (g, t) = ground (arith, e, g, t)
gate false outcome inner e (g, t) = ground (arith, e)

verify_basic_auth_lem :
    (p : Primitives) (now : ℕ) (request : AuthRequest) (server : Server)
    → let session = verify_session_token p now request.session_token server in
      (verify_basic_auth p now request server).0 ≡ (
        if server.credentials.auth_required
        then (check_user p request (user_or_header p request session)).0
        else granted)
unfolding verify_basic_auth get_authenticated_user
verify_basic_auth_lem p now request server = ground arith

-- Where authentication is required, a request is let in exactly if its cookie is a live session or
-- its header has the right user and password. It ends in a TypeError, and not in a refusal, exactly
-- if it has no live session and a header, not empty, from which no credentials can be read. Where
-- authentication is not required, every request is let in.
pub verify_basic_auth-outcome :
    (p : Primitives) (now : ℕ) (request : AuthRequest) (server : Server)
    → let (outcome, after) = verify_basic_auth p now request server in
      let (who, _) = verify_session_token p now request.session_token server in
      let parsed = parse_basic_auth p request.authorization in
      let required = server.credentials.auth_required in
      ((outcome ≡ granted)
        ↔ ((required ≡ false) ⊎ ((truthy who ≡ true) ⊎ IsRight p server.credentials parsed)))
      × ((outcome ≡ type_error) ↔ ((required ≡ true) × IsUnreadable p request who))
unfolding Decided
verify_basic_auth-outcome p now request server =
    let (who, after) = verify_session_token p now request.session_token server in
    let outcome = (check_user p request (user_or_header p request (who, after))).0 in
    let parsed = parse_basic_auth p request.authorization in
    let decided : Decided p request who server.credentials parsed outcome =
      subst (λ c. Decided p request who c parsed outcome)
        (verify_session_token-credentials p now request.session_token server)
        (check_user-Decided p request who after parsed refl) in
    gate server.credentials.auth_required (verify_basic_auth p now request server).0 outcome
      (verify_basic_auth_lem p now request server) decided
