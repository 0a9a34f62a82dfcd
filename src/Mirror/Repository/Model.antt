-- ===== src/Mirror/Repository/Model.antt =====
-- The data of backend/app/external_mirrors/repository.py, and the statements on the two tables that
-- its methods share.
use ham_spectrum_analysis.Prelude.{
  ℕ, ◌+◌, Bool, true, false, Option, none, some, List, [], ◌∷◌, ◌++◌, is_empty, ◌==◌, if◌then◌else◌,
}
use ham_spectrum_analysis.Text.{Text, same, text_leb}

pub record ExternalMirror : Type 0 where
  pub id : ℕ
  pub name : Text
  pub endpoint_url : Text
  pub auth_token_hash : Text
  pub enabled : Bool
  pub push_interval_seconds : ℕ
  pub data_scopes : List Text
  pub retention_days : Option ℕ
  pub last_push_at : Option Text
  pub last_push_status : Option Text
  pub last_push_watermark : ℕ
  pub consecutive_failures : ℕ
  pub auto_disabled_at : Option Text
  pub created_at : Text
  pub created_by : Text
  pub updated_at : Option Text
  pub display_name : Option Text

-- A row of `external_mirrors`: the mirror, and the column that only the token cache reads.
pub record Row : Type 0 where
  pub mirror : ExternalMirror
  pub auth_token_ciphertext : Option Text

-- One keyword argument of `update`.
pub data Field : Type 0 where
  name endpoint_url : Text → Field
  push_interval_seconds : ℕ → Field
  data_scopes : List Text → Field
  retention_days : Option ℕ → Field
  enabled : Bool → Field
  display_name : Option Text → Field

pub data Details : Type 0 where
  created : (endpoint_url : Text) (scopes : List Text) (interval : ℕ) (enabled : Bool) → Details
  -- each changed field, with its old and its new value
  diff : List (Field × Field) → Details
  failures : (consecutive_failures threshold : ℕ) (last_status : Option Text) → Details
  reason : Text → Details

pub data AuditEvent : Type 0 where
  created updated deleted enabled disabled token_rotated auto_disabled skipped_no_token : AuditEvent

pub record AuditRow : Type 0 where
  pub id : ℕ
  pub mirror_id : ℕ
  pub ts : Text
  pub event : AuditEvent
  pub actor : Option Text
  pub details : Option Details

-- The two tables with their AUTOINCREMENT counters, and the threshold of the constructor.
pub record Repository : Type 0 where
  pub rows : List Row
  pub seq : ℕ
  pub audit : List AuditRow
  pub audit_seq : ℕ
  pub auto_disable_threshold : ℕ

-- `MirrorNotFoundError`, `MirrorNameConflictError`, and each `ValueError` by what it says.
pub data Error : Type 0 where
  not_found : ℕ → Error
  name_conflict : Text → Error
  name_required invalid_name endpoint_required interval_too_small display_name_too_long : Error

pub data Result (A : Type 0) : Type 0 where
  ok : A → Result A
  err : Error → Result A

-- `value or None` for an optional text.
abbrev pub nonempty : Option Text → Option Text
nonempty none = none
nonempty (some s) = if is_empty s then none else some s

abbrev pub find_row : ℕ → List Row → Option Row
find_row id [] = none
find_row id (r ∷ rows) = let rest = find_row id rows in if r.mirror.id == id then some r else rest

-- `UPDATE external_mirrors SET … WHERE id = ?`
abbrev pub update_rows : ℕ → (Row → Row) → List Row → List Row
update_rows id change [] = []
update_rows id change (r ∷ rows) =
    (if r.mirror.id == id then change r else r) ∷ update_rows id change rows

-- `DELETE FROM external_mirrors WHERE id = ?`
abbrev pub delete_rows : ℕ → List Row → List Row
delete_rows id [] = []
delete_rows id (r ∷ rows) =
    let rest = delete_rows id rows in if r.mirror.id == id then rest else r ∷ rest

-- UNIQUE(name): a row with this name whose id is another.
abbrev pub name_taken : Text → ℕ → List Row → Bool
name_taken wanted id [] = false
name_taken wanted id (r ∷ rows) =
    let rest = name_taken wanted id rows in
    if r.mirror.id == id then rest else if same r.mirror.name wanted then true else rest

-- The columns of the mirror of one row.
abbrev pub update_mirror : ℕ → (ExternalMirror → ExternalMirror) → Repository → Repository
update_mirror id change repo = record repo {
  rows = update_rows id (λ r. record r { mirror = change r.mirror }) repo.rows;
}

unfoldable pub log_event :
    ℕ → AuditEvent → Option Text → Option Details → (now : Text) → Repository → Repository
log_event mirror_id event actor details now repo = record repo {
  audit =
      repo.audit
      ++ record {
        id = repo.audit_seq + 1;
        mirror_id = mirror_id;
        ts = now;
        event = event;
        actor = actor;
        details = details;
      }
        ∷ [];
  audit_seq = repo.audit_seq + 1;
}

unfoldable pub get_locked : ℕ → Repository → Result ExternalMirror
get_locked id repo = elim (find_row id repo.rows) [
  | none ↦ err (not_found id)
  | some r ↦ ok r.mirror
]

unfoldable pub get : ℕ → Repository → Option ExternalMirror
get id repo = elim (find_row id repo.rows) [ none ↦ none | some r ↦ some r.mirror ]

find_name : Text → List Row → Option ExternalMirror
find_name wanted [] = none
find_name wanted (r ∷ rows) =
    let rest = find_name wanted rows in if same r.mirror.name wanted then some r.mirror else rest

unfoldable pub get_by_name : Text → Repository → Option ExternalMirror
unfolding find_name
get_by_name wanted repo = find_name wanted repo.rows

-- ORDER BY name ASC
insert_by_name : ExternalMirror → List ExternalMirror → List ExternalMirror
insert_by_name m [] = m ∷ []
insert_by_name m (n ∷ ms) =
    let rest = insert_by_name m ms in if text_leb m.name n.name then m ∷ n ∷ ms else n ∷ rest

list_rows : Bool → List Row → List ExternalMirror
unfolding insert_by_name
list_rows include_disabled [] = []
list_rows include_disabled (r ∷ rows) =
    let rest = list_rows include_disabled rows in
    if include_disabled
    then insert_by_name r.mirror rest
    else if r.mirror.enabled
    then insert_by_name r.mirror rest
    else rest

unfoldable pub list : Bool → Repository → List ExternalMirror
unfolding list_rows
list include_disabled repo = list_rows include_disabled repo.rows
