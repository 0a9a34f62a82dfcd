-- ===== src/Auth/Login/Tests.antt =====
-- A server whose user is admin, with a hash that is a mark before the password.
use ham_spectrum_analysis.Prelude.{
  ℕ, ◌+◌, ◌≡◌, ◌↔◌, ◌⊎◌, true, false, Option, none, some, [], ◌∷◌, refl,
}
use ham_spectrum_analysis.Text.{Text, codes, same, strip}
use ham_spectrum_analysis.Auth.Header.{Primitives, verify_password, parse_basic_auth}
use ham_spectrum_analysis.Auth.Server.{Server, Credentials, truthy}
use ham_spectrum_analysis.Auth.Access.{
  AuthRequest, granted, type_error, password_matches, verify_session_token, verify_basic_auth,
  get_authenticated_user,
}
use ham_spectrum_analysis.Auth.Access.Outcome.{IsRight, IsUnreadable, verify_basic_auth-outcome}
use ham_spectrum_analysis.Auth.Login.{
  set_cookie, welcome, saved, Draw, session_length, login_as, auth_login, auth_logout,
  set_credentials, set_session_cookie, store_credentials, env_active, allowed, change_if,
}
use ham_spectrum_analysis.Auth.Login.Sessions.{answer_until, cookie_only, auth_login-session}
use ham_spectrum_analysis.Auth.Login.Passwords.{Accepts, set_credentials-login}

abbrev instant : Text → Option ℕ
instant [] = none
instant (t ∷ rest) = some t

abbrev sample : Primitives
sample = record {
  checkpw = λ password hashed. some (same (36 ∷ password) hashed);
  hashpw = λ password salt. 36 ∷ password;
  b64decode = λ s. some s;
  sha256 = λ s. 35 ∷ s;
  isoformat = λ t. t ∷ [];
  fromisoformat = instant;
}

abbrev admin : Text
admin = codes "admin"

abbrev secret : Text
secret = codes "s3cret"

abbrev credentials : Credentials
credentials = record {
  auth_user = some admin;
  auth_pass = some (36 ∷ secret);
  auth_pass_is_hashed = true;
  auth_required = true;
}

abbrev closed : Server
closed = record {
  env = record { env_auth_user = none; env_auth_pass = none; force_disabled = false };
  stored = record { auth_user = admin; auth_pass_hash = 36 ∷ secret; auth_enabled = true };
  sessions = [];
  credentials = credentials;
}

abbrev draw : Draw
draw = record { now = 1000; token = codes "t0ken"; salt = [] }

-- A header whose credentials cannot be read.
abbrev bearer : AuthRequest
bearer = record { session_token = []; authorization = codes "Bearer abc" }

verify_basic_auth-outcome_example :
    let (outcome, after) = verify_basic_auth sample 2000 bearer closed in
    let (who, _) = verify_session_token sample 2000 [] closed in
    let parsed = parse_basic_auth sample (codes "Bearer abc") in
    ((outcome ≡ granted)
      ↔ ((true ≡ false) ⊎ ((truthy who ≡ true) ⊎ IsRight sample credentials parsed)))
    × ((outcome ≡ type_error) ↔ ((true ≡ true) × IsUnreadable sample bearer who))
verify_basic_auth-outcome_example = verify_basic_auth-outcome sample 2000 bearer closed

abbrev after_login : Server
after_login = (auth_login sample draw (some admin) (some secret) closed).2

admitted :
    auth_login sample draw (some admin) (some secret) closed
    ≡ (welcome admin, set_cookie draw.token, after_login)
unfolding auth_login login_as set_session_cookie password_matches verify_password strip same
admitted = refl

auth_login-session_example :
    let request = cookie_only draw.token in
    (set_cookie draw.token ≡ set_cookie draw.token)
    × (get_authenticated_user sample 2000 request after_login
        ≡ answer_until sample draw.token admin (1000 + session_length) 2000 after_login)
    × ((get_authenticated_user sample 2000 request (auth_logout sample request after_login).2).0
        ≡ none)
auth_login-session_example =
    auth_login-session sample draw (some admin) (some secret) admin (set_cookie draw.token) closed
      after_login 2000 (λ t. refl) (λ t. refl) refl refl admitted

abbrev opened : Server
opened = record closed { credentials = record credentials { auth_required = false } }

abbrev after_change : Server
after_change = (set_credentials sample draw bearer (some admin) (some secret) opened).2

changed :
    set_credentials sample draw bearer (some admin) (some secret) opened
    ≡ (saved admin, set_cookie draw.token, after_change)
unfolding set_credentials env_active allowed change_if store_credentials set_session_cookie strip
changed = refl

set_credentials-login_example :
    (admin ≡ strip admin)
    × (((auth_login sample draw (some admin) (some secret) after_change).0 ≡ welcome (strip admin))
        ↔ Accepts sample admin (36 ∷ strip secret) (strip admin) (strip secret))
set_credentials-login_example =
    set_credentials-login sample draw draw bearer (some admin) (some secret) admin
      (set_cookie draw.token) opened after_change (some admin) (some secret) refl changed
