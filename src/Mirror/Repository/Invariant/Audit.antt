-- ===== src/Mirror/Repository/Invariant/Audit.antt =====
-- The audit log only grows, and misses no change that its methods log.
use ham_spectrum_analysis.Prelude.{
  ℕ, ◌+◌, ◌≡◌, Bool, Option, none, some, [], ◌∷◌, ◌++◌, if◌then◌else◌,
}
use ham_spectrum_analysis.Text.{Text}
use ham_spectrum_analysis.Mirror.Repository.Model.{Row, AuditEvent, find_row, AuditRow, Repository}
use ham_spectrum_analysis.Mirror.Repository.Invariant.Isolation.{target}
use ham_spectrum_analysis.Mirror.Repository.Invariant.History.{
  Call, creates, updates, deletes, switches, rotates, encrypts, books,
}

-- The event that a method logs. The ciphertext of a token is set without one.
abbrev pub event_of : Call → Option AuditEvent
event_of (creates req now at) = some AuditEvent.created
event_of (updates id fields a now at) = some AuditEvent.updated
event_of (deletes id a at) = some AuditEvent.deleted
event_of (switches id b a now at) = some (if b then AuditEvent.enabled else AuditEvent.disabled)
event_of (rotates id a token hash now at) = some AuditEvent.token_rotated
event_of (encrypts id c) = none
event_of (books id b w msg now at) = some AuditEvent.auto_disabled

abbrev pub is_on : Option Row → Option Bool
is_on none = none
is_on (some r) = some r.mirror.enabled

-- What may change without an entry: the ciphertext of a token, and by the bookkeeping of a push
-- everything but whether a mirror is enabled.
abbrev pub IsQuiet : Call → (repo after : Repository) → Type 0
IsQuiet (encrypts id c) repo after = Unit
IsQuiet (books id b w msg now at) repo after =
    (j : ℕ) → is_on (find_row j after.rows) ≡ is_on (find_row j repo.rows)
IsQuiet _ repo after = after.rows ≡ repo.rows

-- The log is as it was, or has at its end one more entry, under the next key, of the mirror that the
-- call names and of the event of its method.
pub data IsLogged (c : Call) (repo after : Repository) : Type 0 where
  quiet :
      after.audit ≡ repo.audit
      → after.audit_seq ≡ repo.audit_seq
      → IsQuiet c repo after
      → IsLogged c repo after
  logged :
      (entry : AuditRow)
      → after.audit ≡ repo.audit ++ entry ∷ []
      → after.audit_seq ≡ repo.audit_seq + 1
      → entry.id ≡ repo.audit_seq + 1
      → entry.mirror_id ≡ target c repo
      → some entry.event ≡ event_of c
      → IsLogged c repo after
