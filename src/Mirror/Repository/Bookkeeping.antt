-- ===== src/Mirror/Repository/Bookkeeping.antt =====
-- `update_after_push` of `ExternalMirrorRepository`.
pub mod Outcome
pub mod Streak
mod Tests
use ham_spectrum_analysis.Prelude.{
  ℕ, ◌+◌, max, Bool, true, false, not, Option, none, some, List, [], ◌∷◌, ◌++◌, is_empty, length,
  take, leb, ltb, ◌==◌, if◌then◌else◌,
}
use ham_spectrum_analysis.Text.{Text, codes, strip}
use ham_spectrum_analysis.Mirror.Repository.Names.{valid_name}
use ham_spectrum_analysis.Mirror.Repository.Model.{
  ExternalMirror, Row, Details, AuditEvent, Repository, Error, Result, ok, err, not_found,
  name_conflict, name_required, invalid_name, endpoint_required, interval_too_small,
  display_name_too_long, nonempty, find_row, delete_rows, name_taken, update_mirror, update_rows,
  log_event, get_locked,
}

-- `(status_msg or "ok")[:200]`, and the status of a failure.
abbrev pub success_status : Option Text → Text
success_status msg = elim (nonempty msg) [ none ↦ codes "ok" | some s ↦ take 200 s ]

abbrev pub failure_status : Option Text → Text
failure_status msg = elim (nonempty msg) [
  | none ↦ codes "error"
  | some s ↦ take 200 (codes "error:" ++ s)
]

-- The column values of the three UPDATE statements of `update_after_push`.
after_success : Option ℕ → Option Text → Text → ExternalMirror → ExternalMirror
after_success watermark msg now m = record m {
  last_push_at = some now;
  last_push_status = some (success_status msg);
  last_push_watermark = elim watermark [ none ↦ m.last_push_watermark | some w ↦ w ];
  consecutive_failures = 0;
  updated_at = some now;
}

after_failure : ℕ → Option Text → Text → ExternalMirror → ExternalMirror
after_failure threshold msg now m =
    let failures = m.consecutive_failures + 1 in
    let noted = record m {
      last_push_at = some now;
      last_push_status = some (failure_status msg);
      consecutive_failures = failures;
      updated_at = some now;
    } in
    if leb threshold failures
    then record noted { enabled = false; auto_disabled_at = some now }
    else noted

unfoldable pub after_push :
    Bool → ℕ → Option ℕ → Option Text → Text → ExternalMirror → ExternalMirror
unfolding after_success after_failure
after_push true threshold watermark msg now m = after_success watermark msg now m
after_push false threshold watermark msg now m = after_failure threshold msg now m

unfoldable pub update_after_push :
    ℕ
    → (success : Bool) → (watermark : Option ℕ) → (status_msg : Option Text)
    → (now logged_at : Text) → Repository
    → Result ExternalMirror × Repository
unfolding get_locked
update_after_push id success watermark status_msg now logged_at repo = elim (get_locked id repo) [
  | err e ↦ (err e, repo)
  | ok current ↦
      let threshold = repo.auto_disable_threshold in
      let changed = update_mirror id (after_push success threshold watermark status_msg now) repo in
      let auto_disabled =
        if success then false else leb threshold (current.consecutive_failures + 1) in
      elim (get_locked id changed) [
        | err e ↦ (err e, changed)
        | ok updated ↦ (
          ok updated,
          if auto_disabled
              then log_event id AuditEvent.auto_disabled none
                  (some (
                    Details.failures updated.consecutive_failures threshold
                      updated.last_push_status))
                  logged_at changed
              else changed,
        )
      ]
]
