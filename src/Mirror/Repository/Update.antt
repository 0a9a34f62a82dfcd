-- ===== src/Mirror/Repository/Update.antt =====
-- `update` of `ExternalMirrorRepository`. The keyword arguments are a list of fields; a name that
-- is not one of `_UPDATABLE_FIELDS` cannot be written.
use ham_spectrum_analysis.Prelude.{
  ℕ, Bool, true, false, not, ◌&&◌, Option, none, some, List, [], ◌∷◌, is_empty, ltb, ◌==◌,
  if◌then◌else◌,
}
use ham_spectrum_analysis.Text.{Text, same, strip}
use ham_spectrum_analysis.Mirror.Repository.Names.{valid_name}
use ham_spectrum_analysis.Mirror.Repository.Model.{
  ExternalMirror, Field, name, endpoint_url, push_interval_seconds, data_scopes, retention_days,
  enabled, display_name, Details, AuditEvent, Repository, Result, ok, err, name_conflict,
  name_required, invalid_name, endpoint_required, interval_too_small, display_name_too_long,
  name_taken, update_mirror, log_event, get_locked,
}
use ham_spectrum_analysis.Mirror.Repository.Create.{clean_display_name, too_long}

same_list : List Text → List Text → Bool
same_list [] [] = true
same_list (s ∷ ss) (t ∷ ts) = same s t && same_list ss ts
same_list _ _ = false

same_number : Option ℕ → Option ℕ → Bool
same_number none none = true
same_number (some a) (some b) = a == b
same_number _ _ = false

same_text : Option Text → Option Text → Bool
same_text none none = true
same_text (some s) (some t) = same s t
same_text _ _ = false

same_flag : Bool → Bool → Bool
same_flag true b = b
same_flag false b = not b

-- One round of the loop over the fields: an error, no change, or the old and the new value. Every
-- field is compared with `current`, the row as it was read.
unfoldable pub check_field : ExternalMirror → Field → Result (Option (Field × Field))
unfolding same_list same_number same_text same_flag
check_field current (data_scopes new_value) =
    if same_list current.data_scopes new_value
    then ok none
    else ok (some (data_scopes current.data_scopes, data_scopes new_value))
check_field current (enabled new_value) =
    if same_flag current.enabled new_value
    then ok none
    else ok (some (enabled current.enabled, enabled new_value))
check_field current (push_interval_seconds new_value) =
    if ltb new_value 10
    then err interval_too_small
    else if current.push_interval_seconds == new_value
    then ok none
    else ok (
        some (push_interval_seconds current.push_interval_seconds, push_interval_seconds new_value))
check_field current (retention_days new_value) =
    if same_number current.retention_days new_value
    then ok none
    else ok (some (retention_days current.retention_days, retention_days new_value))
check_field current (name given) =
    let new_value = strip given in
    if is_empty new_value
    then err name_required
    else if not (valid_name new_value)
    then err invalid_name
    else if same new_value current.name
    then ok none
    else ok (some (name current.name, name new_value))
check_field current (endpoint_url given) =
    let new_value = strip given in
    if is_empty new_value
    then err endpoint_required
    else if same new_value current.endpoint_url
    then ok none
    else ok (some (endpoint_url current.endpoint_url, endpoint_url new_value))
check_field current (display_name given) =
    let new_value = clean_display_name given in
    if too_long new_value
    then err display_name_too_long
    else if same_text current.display_name new_value
    then ok none
    else ok (some (display_name current.display_name, display_name new_value))

unfoldable pub add_change : Option (Field × Field) → List (Field × Field) → List (Field × Field)
add_change none changes = changes
add_change (some c) changes = c ∷ changes

-- The loop; the first error ends it.
unfoldable pub check_fields : ExternalMirror → List Field → Result (List (Field × Field))
unfolding check_field add_change
check_fields current [] = ok []
check_fields current (f ∷ fields) =
    let rest = check_fields current fields in
    elim (check_field current f) [
      | err e ↦ err e
      | ok change ↦ elim rest [ err e ↦ err e | ok changes ↦ ok (add_change change changes) ]
    ]

-- The assignments of the UPDATE statement.
unfoldable pub assign : Field → ExternalMirror → ExternalMirror
assign (name v) m = record m { name = v }
assign (endpoint_url v) m = record m { endpoint_url = v }
assign (push_interval_seconds v) m = record m { push_interval_seconds = v }
assign (data_scopes v) m = record m { data_scopes = v }
assign (retention_days v) m = record m { retention_days = v }
assign (enabled v) m = record m { enabled = v }
assign (display_name v) m = record m { display_name = v }

unfoldable pub assign_all : List (Field × Field) → ExternalMirror → ExternalMirror
unfolding assign
assign_all [] m = m
assign_all ((old, new_) ∷ changes) m = assign_all changes (assign new_ m)

-- The UPDATE, which the UNIQUE index may refuse, and the audit entry.
unfoldable pub write :
    ℕ
    → List (Field × Field)
    → (actor : Option Text) → (now logged_at : Text) → ExternalMirror
    → Repository
    → Result ExternalMirror × Repository
unfolding assign_all
write id changes actor now logged_at current repo =
    let target = record (assign_all changes current) { updated_at = some now } in
    if name_taken target.name id repo.rows
    then (err (name_conflict target.name), repo)
    else let changed =
        update_mirror id (λ m. record (assign_all changes m) { updated_at = some now }) repo in
      elim (get_locked id changed) [
        | err e ↦ (err e, changed)
        | ok updated ↦ (
          ok updated,
          log_event id AuditEvent.updated actor (some (Details.diff changes)) logged_at changed,
        )
      ]

-- Without a field, and without a change, nothing is written.
unfoldable pub update :
    ℕ
    → List Field
    → (actor : Option Text) → (now logged_at : Text) → Repository
    → Result ExternalMirror × Repository
unfolding check_fields write get_locked
update id fields actor now logged_at repo = elim (get_locked id repo) [
  | err e ↦ (err e, repo)
  | ok current ↦ elim (check_fields current fields) [
    | err e ↦ (err e, repo)
    | ok changes ↦
        if is_empty changes
        then (ok current, repo)
        else write id changes actor now logged_at current repo
  ]
]
