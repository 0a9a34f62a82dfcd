-- ===== src/Mirror/Repository/Methods.antt =====
-- Deletion, the switch and the tokens of `ExternalMirrorRepository`.
use ham_spectrum_analysis.Prelude.{
  ℕ, Bool, true, false, not, Option, none, some, List, [], ◌∷◌, if◌then◌else◌,
}
use ham_spectrum_analysis.Text.{Text}
use ham_spectrum_analysis.Mirror.Repository.Model.{
  ExternalMirror, Row, AuditEvent, Repository, Result, ok, err, nonempty, find_row, delete_rows,
  update_mirror, update_rows, log_event, get_locked,
}

-- SQLite does not enforce foreign keys on this connection, so the audit rows of the mirror stay and
-- the entry of the deletion is added to them.
unfoldable pub delete :
    ℕ → (actor : Option Text) → (logged_at : Text) → Repository → Bool × Repository
delete id actor logged_at repo = elim (find_row id repo.rows) [
  | none ↦ (false, repo)
  | some r ↦ (
    true,
    log_event id AuditEvent.deleted actor none logged_at
        (record repo { rows = delete_rows id repo.rows }),
  )
]

-- The column values of the two UPDATE statements of `set_enabled`.
unfoldable pub enabled_as : Bool → Text → ExternalMirror → ExternalMirror
enabled_as true now m = record m {
  enabled = true;
  consecutive_failures = 0;
  auto_disabled_at = none;
  updated_at = some now;
}
enabled_as false now m = record m { enabled = false; updated_at = some now }

abbrev same_bool : Bool → Bool → Bool
same_bool true b = b
same_bool false b = not b

unfoldable pub set_enabled :
    ℕ
    → Bool
    → (actor : Option Text) → (now logged_at : Text) → Repository
    → Result ExternalMirror × Repository
unfolding enabled_as get_locked
set_enabled id enabled actor now logged_at repo = elim (get_locked id repo) [
  | err e ↦ (err e, repo)
  | ok current ↦
      if same_bool current.enabled enabled
      then (ok current, repo)
      else let changed = update_mirror id (enabled_as enabled now) repo in
        (
          get_locked id changed,
          log_event id (if enabled then AuditEvent.enabled else AuditEvent.disabled) actor none
              logged_at changed,
        )
]

-- `new_token` is drawn by the caller of the model, `new_hash` is its bcrypt hash.
unfoldable pub rotate_token :
    ℕ
    → (actor : Option Text) → (new_token new_hash now logged_at : Text) → Repository
    → Result (ExternalMirror × Text) × Repository
unfolding get_locked
rotate_token id actor new_token new_hash now logged_at repo = elim (get_locked id repo) [
  | err e ↦ (err e, repo)
  | ok current ↦
      let changed =
        update_mirror id (λ m. record m { auth_token_hash = new_hash; updated_at = some now })
          repo in
      elim (get_locked id changed) [
        | err e ↦ (err e, changed)
        | ok updated ↦ (
          ok (updated, new_token),
          log_event id AuditEvent.token_rotated actor none logged_at changed,
        )
      ]
]

-- bcrypt's check is the argument `verify_password`.
verify_token : (Text → Text → Bool) → ℕ → Text → Repository → Bool
verify_token verify_password id plaintext_token repo = elim (find_row id repo.rows) [
  | none ↦ false
  | some r ↦ verify_password plaintext_token r.mirror.auth_token_hash
]

unfoldable pub set_token_ciphertext : ℕ → Option Text → Repository → Repository
set_token_ciphertext id ciphertext repo = record repo {
  rows = update_rows id (λ r. record r { auth_token_ciphertext = ciphertext }) repo.rows;
}

unfoldable pub ciphertexts : List Row → List (ℕ × Text)
ciphertexts [] = []
ciphertexts (r ∷ rows) =
    let rest = ciphertexts rows in
    elim (nonempty r.auth_token_ciphertext) [ none ↦ rest | some c ↦ (r.mirror.id, c) ∷ rest ]

unfoldable pub iter_token_ciphertexts : Repository → List (ℕ × Text)
unfolding ciphertexts
iter_token_ciphertexts repo = ciphertexts repo.rows
