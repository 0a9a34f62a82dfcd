-- ===== src/Mirror/Repository/Invariant/Tests.antt =====
-- A history with a name that is taken, a rename, a switch and a deletion.
use ham_spectrum_analysis.Prelude.{◌≡◌, refl, true, false, none, some, List, [], ◌∷◌, map, arith}
use ham_spectrum_analysis.Text.{Text, codes, same, strip}
use ham_spectrum_analysis.Mirror.Repository.Names.{valid_name, matches_rest, is_name_char, is_alnum}
use ham_spectrum_analysis.Mirror.Repository.Model.{
  name, Repository, find_row, get, get_locked, log_event,
}
use ham_spectrum_analysis.Mirror.Repository.Create.{
  CreateRequest, open_repository, new_row, insert, create,
}
use ham_spectrum_analysis.Mirror.Repository.Methods.{delete, set_enabled, enabled_as}
use ham_spectrum_analysis.Mirror.Repository.Update.{
  check_field, check_fields, add_change, assign, assign_all, write, update,
}
use ham_spectrum_analysis.Mirror.Repository.Invariant.{IsRepository}
use ham_spectrum_analysis.Mirror.Repository.Invariant.History.{
  Call, creates, updates, switches, encrypts, apply, apply_all, apply_all-IsRepository,
}
use ham_spectrum_analysis.Mirror.Repository.Invariant.Isolation.{find_row-apply}

abbrev request : Text → CreateRequest
request label = record {
  name = label;
  endpoint_url = codes "https://example.org/ingest.php";
  created_by = codes "admin";
  token = codes "token";
  password_hash = codes "hash";
  push_interval_seconds = 60;
  data_scopes = [];
  retention_days = none;
  enabled = true;
  display_name = none;
}

abbrev calls : List Call
calls =
    creates (request (codes " site")) (codes "t") (codes "t")
    ∷ creates (request (codes "site")) (codes "t") (codes "t")
    ∷ creates (request (codes "other")) (codes "t") (codes "t")
    ∷ updates 1 (name (codes "other") ∷ []) none (codes "t") (codes "t")
    ∷ updates 2 (name (codes "third") ∷ []) none (codes "t") (codes "t")
    ∷ switches 1 false none (codes "t") (codes "t")
    ∷ []

abbrev repo : Repository
repo = apply_all calls (open_repository 3)

program : Unit {0}
unfolding open_repository create insert new_row log_event get_locked get update check_fields
    check_field add_change write assign_all assign set_enabled enabled_as valid_name matches_rest
    is_name_char is_alnum same strip delete
program = tt

-- The second `create` and the first `update` are refused.
names : map (λ r. r.mirror.name) repo.rows ≡ codes "site" ∷ codes "third" ∷ []
unfolding program
names = refl

apply_all-IsRepository_example : IsRepository repo
apply_all-IsRepository_example = apply_all-IsRepository 3 calls

find_row-apply_example :
    find_row 2 (apply (encrypts 1 (some (codes "c"))) repo).rows ≡ find_row 2 repo.rows
find_row-apply_example = find_row-apply (encrypts 1 (some (codes "c"))) 2 repo (omega arith)
