-- ===== src/Mirror/Repository/Bookkeeping/Outcome.antt =====
-- What one call of `update_after_push` leaves behind.
use ham_spectrum_analysis.Prelude.{
  ℕ, ◌+◌, ◌≡◌, ◌≢◌, refl, length, length-append, Bool, true, false, ◌&&◌, Option, none, some, arith,
  ltb, leb, if◌then◌else◌,
}
use ham_spectrum_analysis.Text.{Text}
use ham_spectrum_analysis.Mirror.Repository.Model.{
  ExternalMirror, Row, Details, AuditEvent, Repository, err, not_found, find_row, get, log_event,
}
use ham_spectrum_analysis.Mirror.Repository.Rows.{find_row-update_self, find_row-update_ne}
use ham_spectrum_analysis.Mirror.Repository.Bookkeeping.{after_push, update_after_push}

pub length-log_event :
    (id : ℕ) (event : AuditEvent) (actor : Option Text) (details : Option Details) (now : Text)
    (repo : Repository)
    → length (log_event id event actor details now repo).audit ≡ length repo.audit + 1
unfolding log_event
length-log_event id event actor details now repo = length-append repo.audit _

threshold-log_event :
    (id : ℕ) (event : AuditEvent) (actor : Option Text) (details : Option Details) (now : Text)
    (repo : Repository)
    → (log_event id event actor details now repo).auto_disable_threshold
      ≡ repo.auto_disable_threshold
unfolding log_event
threshold-log_event id event actor details now repo = refl

-- The bookkeeping columns after a push, written out from the columns before it.
pub record IsBooked (success : Bool) (threshold : ℕ) (watermark : Option ℕ)
    (before after : ExternalMirror) : Type 0 where
  pub failures :
      after.consecutive_failures ≡ (if success then 0 else before.consecutive_failures + 1)
  pub cursor : after.last_push_watermark ≡ (
      if success
      then elim watermark [ none ↦ before.last_push_watermark | some w ↦ w ]
      else before.last_push_watermark)
  pub switch : after.enabled ≡ (
      if success
      then before.enabled
      else before.enabled && ltb (before.consecutive_failures + 1) threshold)
  pub endpoint : after.endpoint_url ≡ before.endpoint_url
  pub token : after.auth_token_hash ≡ before.auth_token_hash
  pub scopes : after.data_scopes ≡ before.data_scopes

pub after_push-IsBooked :
    (success : Bool) (threshold : ℕ) (watermark : Option ℕ) (msg : Option Text) (now : Text)
    (m : ExternalMirror)
    → IsBooked success threshold watermark m (after_push success threshold watermark msg now m)
unfolding after_push
after_push-IsBooked true threshold watermark msg now m = ground arith
after_push-IsBooked false threshold watermark msg now m = ground arith

pub after_push-id :
    (success : Bool) (threshold : ℕ) (watermark : Option ℕ) (msg : Option Text) (now : Text)
    (m : ExternalMirror)
    → (after_push success threshold watermark msg now m).id ≡ m.id
unfolding after_push
after_push-id success threshold watermark msg now m = ground arith

module _ (id : ℕ) (success : Bool) (watermark : Option ℕ) (msg : Option Text) (now logged_at : Text)
    (repo : Repository) where
  abbrev pub after : Repository
  after = (update_after_push id success watermark msg now logged_at repo).1

  get-after :
      (m : ExternalMirror)
      → get id repo ≡ some m
      → get id after ≡ some (after_push success repo.auto_disable_threshold watermark msg now m)
  unfolding update_after_push get log_event
  get-after m found = ground (
    arith,
    find_row-update_self id
        (λ (r : Row). record r {
          mirror = after_push success repo.auto_disable_threshold watermark msg now r.mirror;
        })
        (λ r. after_push-id success repo.auto_disable_threshold watermark msg now r.mirror)
        repo.rows,
  )

  abbrev pub auto_disables : ExternalMirror → Bool
  auto_disables m =
      if success then false else leb repo.auto_disable_threshold (m.consecutive_failures + 1)

  after_logged :
      (m : ExternalMirror)
      → get id repo ≡ some m
      → (length after.audit ≡ length repo.audit + (if auto_disables m then 1 else 0))
        × (after.auto_disable_threshold ≡ repo.auto_disable_threshold)
  unfolding update_after_push get
  after_logged m found = grind (
    arith,
    length-log_event,
    threshold-log_event,
    find_row-update_self id
        (λ (r : Row). record r {
          mirror = after_push success repo.auto_disable_threshold watermark msg now r.mirror;
        })
        (λ r. after_push-id success repo.auto_disable_threshold watermark msg now r.mirror)
        repo.rows,
  )

  -- A push of a mirror that is there is booked: a success resets the failures, moves the cursor to
  -- the one it is given (and leaves it if none is) and does not touch the switch; a failure counts
  -- one more failure, leaves the cursor, and turns the mirror off exactly if the count reaches the
  -- threshold. The audit log grows by one entry exactly in that case: neither a success nor a
  -- failure has one of its own. The threshold stays.
  pub update_after_push-IsBooked :
      (m : ExternalMirror)
      → get id repo ≡ some m
      → (m' : ExternalMirror) × (get id after ≡ some m')
        × IsBooked success repo.auto_disable_threshold watermark m m'
        × (length after.audit ≡ length repo.audit + (if auto_disables m then 1 else 0))
        × (after.auto_disable_threshold ≡ repo.auto_disable_threshold)
  update_after_push-IsBooked m found = (
    after_push success repo.auto_disable_threshold watermark msg now m,
    get-after m found,
    after_push-IsBooked success repo.auto_disable_threshold watermark msg now m,
    (after_logged m found).0,
    (after_logged m found).1,
  )

  -- The rows of the other mirrors are left as they are.
  pub find_row-after_ne : (j : ℕ) → j ≢ id → find_row j after.rows ≡ find_row j repo.rows
  unfolding update_after_push log_event
  find_row-after_ne j ne = grind (
    arith,
    find_row-update_ne id
        (λ (r : Row). record r {
          mirror = after_push success repo.auto_disable_threshold watermark msg now r.mirror;
        })
        (λ r. after_push-id success repo.auto_disable_threshold watermark msg now r.mirror) j
        repo.rows ne,
  )

  pub get-after_ne : (j : ℕ) → j ≢ id → get j after ≡ get j repo
  unfolding get
  get-after_ne j ne = ground (arith, find_row-after_ne j ne)

  -- A push of a mirror that is not there raises and changes nothing.
  update_after_push_missing :
      get id repo ≡ none
      → update_after_push id success watermark msg now logged_at repo ≡ (err (not_found id), repo)
  unfolding update_after_push get
  update_after_push_missing missing = ground arith
