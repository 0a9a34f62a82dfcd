-- ===== src/Auth/Login/Passwords.antt =====
-- Which credentials a login takes once they were set.
use ham_spectrum_analysis.Prelude.{
  ◌≡◌, ◌↔◌, Bool, true, false, Option, some, is_empty, sym, ap, ◌∙◌, arith,
}
use ham_spectrum_analysis.Text.{Text, same_iff, strip}
use ham_spectrum_analysis.Auth.Header.{Primitives, verify_password}
use ham_spectrum_analysis.Auth.Server.{
  Server, Credentials, or_empty, save_auth_session, save_auth_config, reload_auth_from_db,
  load_auth_from_db,
}
use ham_spectrum_analysis.Auth.Access.{AuthRequest, password_matches}
use ham_spectrum_analysis.Auth.Login.{
  Cookie, saved, welcome, Draw, login_as, auth_login, set_session_cookie, store_credentials,
  change_if, allowed, set_credentials,
}

abbrev hashed_credentials : (user hash : Text) → Credentials
hashed_credentials user hash = record {
  auth_user = some user;
  auth_pass = some hash;
  auth_pass_is_hashed = true;
  auth_required = true;
}

module _ (p : Primitives) (draw : Draw) (request : AuthRequest) (user password : Text)
    (hashed : is_empty (p.hashpw password draw.salt) ≡ false) where
  -- What is known of credentials that were saved.
  IsSaved : Text → Server → Type 0
  IsSaved name after =
      (name ≡ user)
      × (is_empty user ≡ false)
      × (after.credentials ≡ hashed_credentials user (p.hashpw password draw.salt))

  store_credentials-IsSaved :
      (name : Text) (cookie : Cookie) (server after : Server)
      → store_credentials p draw request user password server ≡ (saved name, cookie, after)
      → IsSaved name after
  unfolding IsSaved store_credentials set_session_cookie save_auth_session save_auth_config
      reload_auth_from_db load_auth_from_db
  store_credentials-IsSaved name cookie server after e = ground (arith, e, hashed)

  change_if-IsSaved :
      (gate : Bool × Server) (name : Text) (cookie : Cookie) (after : Server)
      → change_if p draw request user password gate ≡ (saved name, cookie, after)
      → IsSaved name after
  unfolding change_if
  change_if-IsSaved (false, server) name cookie after e = ground (arith, e)
  change_if-IsSaved (true, server) name cookie after e =
      store_credentials-IsSaved name cookie server after e

set_credentials-IsSaved :
    (p : Primitives) (draw : Draw) (request : AuthRequest) (user password : Option Text)
    (name : Text) (cookie : Cookie) (server after : Server)
    → (hashed : is_empty (p.hashpw (strip (or_empty password)) draw.salt) ≡ false)
    → set_credentials p draw request user password server ≡ (saved name, cookie, after)
    → IsSaved p draw request (strip (or_empty user)) (strip (or_empty password)) hashed name after
unfolding set_credentials
set_credentials-IsSaved p draw request user password name cookie server after hashed e = ground (
  arith,
  e,
  change_if-IsSaved p draw request (strip (or_empty user)) (strip (or_empty password)) hashed
      (allowed p draw request server) name cookie after,
)

-- A login with the credentials of the database.
abbrev pub Accepts : Primitives → (name hash user password : Text) → Type 0
Accepts p name hash user password =
    (user ≡ name)
    × (is_empty user ≡ false)
    × (is_empty password ≡ false)
    × (p.checkpw password hash ≡ some true)

login_as-Accepts :
    (p : Primitives) (draw : Draw) (name hash user password : Text) (server : Server)
    → server.credentials ≡ hashed_credentials name hash
    → ((login_as p draw user password server).0 ≡ welcome user) ↔ Accepts p name hash user password
unfolding login_as password_matches verify_password
login_as-Accepts p draw name hash user password server e = ground (arith, e, same_iff user name)

-- Credentials that were saved are in force at once: from then on a login is welcome, by the name it
-- gives, exactly if this name is the saved one and bcrypt accepts the password, not empty, against
-- the hash of the saved one. Names and passwords are taken without the white space around them.
pub set_credentials-login :
    (p : Primitives) (draw next : Draw) (request : AuthRequest) (user password : Option Text)
    (name : Text) (cookie : Cookie) (server after : Server)
    (login_user login_password : Option Text)
    → (hashed : is_empty (p.hashpw (strip (or_empty password)) draw.salt) ≡ false)
    → set_credentials p draw request user password server ≡ (saved name, cookie, after)
    → let given = strip (or_empty login_user) in
      (name ≡ strip (or_empty user))
      × (((auth_login p next login_user login_password after).0 ≡ welcome given)
          ↔ Accepts p name
              (p.hashpw (strip (or_empty password)) draw.salt)
              given
              (strip (or_empty login_password)))
unfolding auth_login IsSaved
set_credentials-login p draw next request user password name cookie server after login_user
      login_password hashed e =
    let (named, _, inforce) =
      set_credentials-IsSaved p draw request user password name cookie server after hashed e in
    let hash = p.hashpw (strip (or_empty password)) draw.salt in
    let stored = inforce ∙ ap (λ n. hashed_credentials n hash) (sym named) in
    (
      named,
      ground (
        arith,
        stored,
        login_as-Accepts p next name hash (strip (or_empty login_user))
            (strip (or_empty login_password)) after stored,
      ),
    )
