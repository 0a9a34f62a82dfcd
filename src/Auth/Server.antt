-- ===== src/Auth/Server.antt =====
-- The credentials in force of backend/app/dependencies/state.py, and the settings and sessions that
-- backend/app/storage/db.py keeps of them.
use ham_spectrum_analysis.Prelude.{
  Bool, true, false, ◌&&◌, not, Option, none, some, List, [], ◌∷◌, is_empty, if◌then◌else◌,
}
use ham_spectrum_analysis.Text.{Text, same, text_leb}
use ham_spectrum_analysis.Auth.Header.{is_bcrypt_hash}

-- The environment: `none` is a variable that is not set.
pub record Environment : Type 0 where
  pub env_auth_user : Option Text
  pub env_auth_pass : Option Text
  pub force_disabled : Bool

-- The keys `_auth_user`, `_auth_pass_hash` and `_auth_enabled` of the table of settings.
pub record AuthConfig : Type 0 where
  pub auth_user : Text
  pub auth_pass_hash : Text
  pub auth_enabled : Bool

pub record Session : Type 0 where
  pub session_hash : Text
  pub user : Text
  pub expires_at : Text

-- `auth_user, auth_pass, auth_pass_is_hashed, auth_required`
pub record Credentials : Type 0 where
  pub auth_user : Option Text
  pub auth_pass : Option Text
  pub auth_pass_is_hashed : Bool
  pub auth_required : Bool

pub record Server : Type 0 where
  pub env : Environment
  pub stored : AuthConfig
  pub sessions : List Session
  pub credentials : Credentials

-- Python's truth of an optional text, and its test for one that is equal.
abbrev pub truthy : Option Text → Bool
truthy none = false
truthy (some s) = not (is_empty s)

abbrev pub or_empty : Option Text → Text
or_empty none = []
or_empty (some s) = s

abbrev pub is_text : Text → Option Text → Bool
is_text s none = false
is_text s (some t) = same s t

env_credentials : Environment → Credentials
env_credentials env =
    if not env.force_disabled && truthy env.env_auth_user && truthy env.env_auth_pass
    then record {
      auth_user = env.env_auth_user;
      auth_pass = env.env_auth_pass;
      auth_pass_is_hashed = is_bcrypt_hash (or_empty env.env_auth_pass);
      auth_required = not env.force_disabled;
    }
    else record {
      auth_user = none;
      auth_pass = none;
      auth_pass_is_hashed = false;
      auth_required = false;
    }

-- The credentials of the database take precedence over those of the environment.
unfoldable pub load_auth_from_db : Environment → AuthConfig → Credentials
unfolding env_credentials
load_auth_from_db env stored =
    if stored.auth_enabled
      && not (is_empty stored.auth_user)
      && not (is_empty stored.auth_pass_hash)
    then record {
      auth_user = some stored.auth_user;
      auth_pass = some stored.auth_pass_hash;
      auth_pass_is_hashed = true;
      auth_required = true;
    }
    else env_credentials env

unfoldable pub reload_auth_from_db : Server → Server
reload_auth_from_db server = record server {
  credentials = load_auth_from_db server.env server.stored;
}

abbrev pub find_session : Text → List Session → Option Session
find_session hash [] = none
find_session hash (s ∷ sessions) =
    let rest = find_session hash sessions in if same s.session_hash hash then some s else rest

abbrev pub remove_session : Text → List Session → List Session
remove_session hash [] = []
remove_session hash (s ∷ sessions) =
    let rest = remove_session hash sessions in if same s.session_hash hash then rest else s ∷ rest

-- `DELETE FROM auth_sessions WHERE expires_at <= ?`: the texts are compared.
abbrev pub purge_expired : Text → List Session → List Session
purge_expired now_iso [] = []
purge_expired now_iso (s ∷ sessions) =
    let rest = purge_expired now_iso sessions in
    if text_leb s.expires_at now_iso then rest else s ∷ rest

unfoldable pub get_auth_session_by_hash : Text → Server → Option Session
get_auth_session_by_hash hash server = find_session hash server.sessions

-- The session of a hash is replaced by the new one.
unfoldable pub save_auth_session :
    (now_iso : Text) → (session_hash expires_at user : Text) → Server → Server
save_auth_session now_iso session_hash expires_at user server = record server {
  sessions = session ∷ remove_session session_hash (purge_expired now_iso server.sessions);
}
  where
    session : Session
    session = record { session_hash = session_hash; user = user; expires_at = expires_at }

-- An empty hash clears every session.
unfoldable pub clear_auth_session : (session_hash : Text) → Server → Server
clear_auth_session session_hash server = record server {
  sessions = if is_empty session_hash then [] else remove_session session_hash server.sessions;
}

-- Empty texts turn the credentials off and end every session.
unfoldable pub save_auth_config : (user pass_hash : Text) → Server → Server
unfolding clear_auth_session
save_auth_config user pass_hash server =
    if not (is_empty user) && not (is_empty pass_hash)
    then record server {
      stored = record { auth_user = user; auth_pass_hash = pass_hash; auth_enabled = true };
    }
    else clear_auth_session [] (record server {
      stored = record { auth_user = []; auth_pass_hash = []; auth_enabled = false };
    })
