-- ===== src/Mirror/Repository/Create.antt =====
-- `__init__` and `create` of `ExternalMirrorRepository`.
use ham_spectrum_analysis.Prelude.{
  ℕ, ◌+◌, max, Bool, false, not, Option, none, some, List, [], ◌∷◌, ◌++◌, is_empty, length, ltb,
  if◌then◌else◌,
}
use ham_spectrum_analysis.Text.{Text, strip}
use ham_spectrum_analysis.Mirror.Repository.Names.{valid_name}
use ham_spectrum_analysis.Mirror.Repository.Model.{
  ExternalMirror, Row, Details, AuditEvent, Repository, Result, ok, err, name_conflict,
  name_required, invalid_name, endpoint_required, interval_too_small, display_name_too_long,
  nonempty, name_taken, log_event,
}

-- `__init__`
unfoldable pub open_repository : ℕ → Repository
open_repository threshold = record {
  rows = [];
  seq = 0;
  audit = [];
  audit_seq = 0;
  auto_disable_threshold = max 1 threshold;
}

-- What a caller of `create` gives; `password_hash` is the hash that bcrypt made of the token.
pub record CreateRequest : Type 0 where
  pub name : Text
  pub endpoint_url : Text
  pub created_by : Text
  pub token : Text
  pub password_hash : Text
  pub push_interval_seconds : ℕ
  pub data_scopes : List Text
  pub retention_days : Option ℕ
  pub enabled : Bool
  pub display_name : Option Text

-- `(display_name or "").strip() or None`
abbrev pub clean_display_name : Option Text → Option Text
clean_display_name none = none
clean_display_name (some s) = nonempty (some (strip s))

abbrev pub too_long : Option Text → Bool
too_long none = false
too_long (some s) = ltb 200 (length s)

-- The row of the INSERT.
unfoldable pub new_row : CreateRequest → ℕ → Text → Row
new_row req id now = record {
  mirror = record {
    id = id;
    name = strip req.name;
    endpoint_url = strip req.endpoint_url;
    auth_token_hash = req.password_hash;
    enabled = req.enabled;
    push_interval_seconds = req.push_interval_seconds;
    data_scopes = req.data_scopes;
    retention_days = req.retention_days;
    last_push_at = none;
    last_push_status = none;
    last_push_watermark = 0;
    consecutive_failures = 0;
    auto_disabled_at = none;
    created_at = now;
    created_by = req.created_by;
    updated_at = none;
    display_name = clean_display_name req.display_name;
  };
  auth_token_ciphertext = none;
}

-- The INSERT and the audit entry; the plain token is returned and not stored.
unfoldable pub insert :
    CreateRequest
    → (now logged_at : Text) → Repository
    → Result (ExternalMirror × Text) × Repository
unfolding new_row
insert req now logged_at repo =
    let id = repo.seq + 1 in
    let row = new_row req id now in
    if name_taken (strip req.name) id repo.rows
    then (err (name_conflict (strip req.name)), repo)
    else (
      ok (row.mirror, req.token),
      log_event id AuditEvent.created (some req.created_by)
          (some (
            Details.created (strip req.endpoint_url) req.data_scopes req.push_interval_seconds
              req.enabled))
          logged_at (record repo { rows = repo.rows ++ row ∷ []; seq = id }),
    )

unfoldable pub create :
    CreateRequest
    → (now logged_at : Text) → Repository
    → Result (ExternalMirror × Text) × Repository
unfolding insert
create req now logged_at repo =
    if is_empty (strip req.name)
    then (err name_required, repo)
    else if not (valid_name (strip req.name))
    then (err invalid_name, repo)
    else if is_empty (strip req.endpoint_url)
    then (err endpoint_required, repo)
    else if ltb req.push_interval_seconds 10
    then (err interval_too_small, repo)
    else if too_long (clean_display_name req.display_name)
    then (err display_name_too_long, repo)
    else insert req now logged_at repo
