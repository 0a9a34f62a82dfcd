-- ===== src/Mirror/Repository/Invariant/Endings.antt =====
-- How the methods of the repository end: as it was, or with a change and an entry of the audit log.
use ham_spectrum_analysis.Prelude.{
  ℕ, ◌+◌, ◌≡◌, refl, Bool, Option, none, some, List, if◌then◌else◌, leb, arith, false,
}
use ham_spectrum_analysis.Text.{Text}
use ham_spectrum_analysis.Mirror.Repository.Model.{
  ExternalMirror, Row, Field, AuditEvent, find_row, delete_rows, get_locked, ok, update_mirror,
  Details, Repository, log_event,
}
use ham_spectrum_analysis.Mirror.Repository.Create.{CreateRequest, insert, create}
use ham_spectrum_analysis.Mirror.Repository.Methods.{delete, set_enabled, rotate_token}
use ham_spectrum_analysis.Mirror.Repository.Bookkeeping.{after_push, update_after_push}
use ham_spectrum_analysis.Mirror.Repository.Bookkeeping.Outcome.{after_push-id}
use ham_spectrum_analysis.Mirror.Repository.Rows.{find_row-update_self}
use ham_spectrum_analysis.Mirror.Repository.Update.{assign_all, write, update}
use ham_spectrum_analysis.Mirror.Repository.Invariant.Fields.{id-assign_all}

module _ (P : Repository → Type 0) (repo : Repository) (same_repo : P repo) where
  pub create-ends :
      (req : CreateRequest) (now at : Text)
      → ((details : Option Details) (rows : List Row)
          → P (
              log_event
                (repo.seq + 1)
                AuditEvent.created
                (some req.created_by)
                details
                at
                (record repo { rows = rows; seq = repo.seq + 1 })))
      → P (create req now at repo).1
  unfolding create insert
  create-ends req now at h = grind (arith, same_repo, h)

  pub delete-ends :
      (id : ℕ) (a : Option Text) (at : Text)
      → P (
          log_event id AuditEvent.deleted a none at
            (record repo { rows = delete_rows id repo.rows }))
      → P (delete id a at repo).1
  unfolding delete
  delete-ends id a at h = grind (arith, same_repo, h)

  pub set_enabled-ends :
      (id : ℕ) (b : Bool) (a : Option Text) (now at : Text)
      → ((rows : List Row)
          → P (
              log_event id
                (if b then AuditEvent.enabled else AuditEvent.disabled)
                a
                none
                at
                (record repo { rows = rows })))
      → P (set_enabled id b a now at repo).1
  unfolding set_enabled
  set_enabled-ends id b a now at h = grind (arith, same_repo, h)

  pub rotate_token-ends :
      (id : ℕ) (a : Option Text) (token hash now at : Text)
      → ((rows : List Row)
          → P (log_event id AuditEvent.token_rotated a none at (record repo { rows = rows })))
      → P (rotate_token id a token hash now at repo).1
  unfolding rotate_token get_locked
  rotate_token-ends id a token hash now at h =
      let found =
        find_row-update_self id
          (λ (r : Row). record r {
            mirror = record (r.mirror) { auth_token_hash = hash; updated_at = some now };
          })
          (λ r. refl) repo.rows in
      grind (arith, same_repo, h, found)

  write-ends :
      (id : ℕ) (changes : List (Field × Field)) (a : Option Text) (now at : Text)
      (current : ExternalMirror)
      → get_locked id repo ≡ ok current
      → ((details : Option Details) (rows : List Row)
          → P (log_event id AuditEvent.updated a details at (record repo { rows = rows })))
      → P (write id changes a now at current repo).1
  unfolding write get_locked
  write-ends id changes a now at current e h =
      let found =
        find_row-update_self id
          (λ (r : Row). record r {
            mirror = record (assign_all changes r.mirror) { updated_at = some now };
          })
          (λ r. id-assign_all changes r.mirror) repo.rows in
      grind (arith, same_repo, h, found, e)

  pub update-ends :
      (id : ℕ) (fields : List Field) (a : Option Text) (now at : Text)
      → ((details : Option Details) (rows : List Row)
          → P (log_event id AuditEvent.updated a details at (record repo { rows = rows })))
      → P (update id fields a now at repo).1
  unfolding update
  update-ends id fields a now at h =
      let written =
        λ (changes : List (Field × Field)) (current : ExternalMirror)
            (e : get_locked id repo ≡ ok current).
          write-ends id changes a now at current e h in
      grind (arith, same_repo, written)

  pub update_after_push-ends :
      (id : ℕ) (success : Bool) (w : Option ℕ) (msg : Option Text) (now at : Text)
      → ((details : Option Details) (rows : List Row)
          → P (log_event id AuditEvent.auto_disabled none details at (record repo { rows = rows })))
      → ((r : Row)
          → find_row id repo.rows ≡ some r
          → (if success
              then false
              else leb repo.auto_disable_threshold (r.mirror.consecutive_failures + 1))
            ≡ false
          → P (update_mirror id (after_push success repo.auto_disable_threshold w msg now) repo))
      → P (update_after_push id success w msg now at repo).1
  unfolding update_after_push get_locked
  update_after_push-ends id success w msg now at h k =
      let found =
        find_row-update_self id
          (λ (r : Row). record r {
            mirror = after_push success repo.auto_disable_threshold w msg now r.mirror;
          })
          (λ r. after_push-id success repo.auto_disable_threshold w msg now r.mirror) repo.rows in
      grind (arith, same_repo, h, k, found)
