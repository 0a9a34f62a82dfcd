-- ===== src/Mirror/Pusher/Tokens/Tests.antt =====
-- A token that is set, and read after a restart. The vault writes a mark before the text.
use ham_spectrum_analysis.Prelude.{◌≡◌, refl, true, Option, none, some, [], ◌∷◌}
use ham_spectrum_analysis.Text.{Text, codes, same, strip}
use ham_spectrum_analysis.Mirror.Repository.Names.{valid_name, matches_rest, is_name_char, is_alnum}
use ham_spectrum_analysis.Mirror.Repository.Model.{Repository, get, log_event}
use ham_spectrum_analysis.Mirror.Repository.Create.{
  CreateRequest, open_repository, new_row, insert, create,
}
use ham_spectrum_analysis.Mirror.Repository.Invariant.History.{
  creates, apply_all, apply_all-IsRepository,
}
use ham_spectrum_analysis.Mirror.Pusher.Tokens.{
  Vault, TokenCache, set_token, get_token, load_persisted,
}
use ham_spectrum_analysis.Mirror.Pusher.Tokens.Restart.{restart, set_token-load_persisted}

abbrev request : CreateRequest
request = record {
  name = codes "site";
  endpoint_url = codes "https://example.org/ingest.php";
  created_by = codes "admin";
  token = codes "token";
  password_hash = codes "hash";
  push_interval_seconds = 60;
  data_scopes = [];
  retention_days = none;
  enabled = true;
  display_name = none;
}

abbrev repo : Repository
repo = apply_all (creates request (codes "t") (codes "t") ∷ []) (open_repository 5)

abbrev unmark : Text → Option Text
unmark [] = none
unmark (c ∷ text) = some text

abbrev vault : Vault
vault = record { encrypt = λ text. b'#' ∷ text; decrypt = unmark }

abbrev cache : TokenCache
cache = record { tokens = []; repo = repo; vault = some vault }

program : Unit {0}
unfolding open_repository create insert new_row log_event get valid_name matches_rest is_name_char
    is_alnum same strip
program = tt

found : get 1 repo ≡ some (new_row request 1 (codes "t")).mirror
unfolding program
found = refl

restart_example :
    (get_token 1 (set_token 1 (codes "token") cache) ≡ some (codes "token"))
    × (get_token 1 (load_persisted (restart (set_token 1 (codes "token") cache))).1
        ≡ some (codes "token"))
restart_example =
    set_token-load_persisted 1 (codes "token") cache vault (new_row request 1 (codes "t")).mirror
      refl (apply_all-IsRepository 5 (creates request (codes "t") (codes "t") ∷ [])) found refl refl
