-- ===== src/Mirror/Repository/Invariant/Isolation.antt =====
-- A call changes no mirror but the one that it names.
use ham_spectrum_analysis.Prelude.{
  ℕ, ◌+◌, ◌≡◌, ◌≢◌, refl, Bool, true, false, Option, some, List, [], ◌∷◌, ◌++◌, arith,
}
use ham_spectrum_analysis.Text.{Text}
use ham_spectrum_analysis.Mirror.Repository.Model.{
  ExternalMirror, Row, Field, Repository, find_row, log_event,
}
use ham_spectrum_analysis.Mirror.Repository.Rows.{find_row-update_ne, find_row-delete_ne}
use ham_spectrum_analysis.Mirror.Repository.Create.{new_row, insert, create}
use ham_spectrum_analysis.Mirror.Repository.Methods.{
  delete, enabled_as, set_enabled, rotate_token, set_token_ciphertext,
}
use ham_spectrum_analysis.Mirror.Repository.Bookkeeping.Outcome.{find_row-after_ne}
use ham_spectrum_analysis.Mirror.Repository.Update.{assign_all, write, update}
use ham_spectrum_analysis.Mirror.Repository.Invariant.Fields.{id-assign_all}
use ham_spectrum_analysis.Mirror.Repository.Invariant.History.{
  Call, creates, updates, deletes, switches, rotates, encrypts, books, apply,
}

-- The mirror that a call names; a new one gets the next key.
abbrev pub target : Call → Repository → ℕ
target (creates req now at) repo = repo.seq + 1
target (updates id fields a now at) repo = id
target (deletes id a at) repo = id
target (switches id b a now at) repo = id
target (rotates id a token hash now at) repo = id
target (encrypts id c) repo = id
target (books id b w msg now at) repo = id

find_row-append_ne :
    (j : ℕ) (rows : List Row) (r : Row)
    → j ≢ r.mirror.id
    → find_row j (rows ++ r ∷ []) ≡ find_row j rows
find_row-append_ne j [] r ne = ground arith
find_row-append_ne j (x ∷ rows) r ne = ground (arith, find_row-append_ne j rows r ne)

id-enabled_as : (b : Bool) (now : Text) (m : ExternalMirror) → (enabled_as b now m).id ≡ m.id
unfolding enabled_as
id-enabled_as true now m = refl
id-enabled_as false now m = refl

find_row-write_ne :
    (id : ℕ) (changes : List (Field × Field)) (actor : Option Text) (now at : Text)
    (current : ExternalMirror) (j : ℕ) (repo : Repository)
    → j ≢ id
    → find_row j (write id changes actor now at current repo).1.rows ≡ find_row j repo.rows
unfolding write log_event
find_row-write_ne id changes actor now at current j repo ne =
    let kept =
      find_row-update_ne id
        (λ (r : Row). record r {
          mirror = record (assign_all changes r.mirror) { updated_at = some now };
        })
        (λ r. id-assign_all changes r.mirror) j repo.rows ne in
    ground (arith, kept)

find_row-update_call_ne :
    (id : ℕ) (fields : List Field) (actor : Option Text) (now at : Text) (j : ℕ) (repo : Repository)
    → j ≢ id
    → find_row j (update id fields actor now at repo).1.rows ≡ find_row j repo.rows
unfolding update
find_row-update_call_ne id fields actor now at j repo ne =
    let written = λ (changes : List (Field × Field)) (current : ExternalMirror).
      find_row-write_ne id changes actor now at current j repo ne in
    grind (arith, written)

-- One call, whatever its outcome, changes no mirror but the one that it names: the row under any
-- other key, with the ciphertext of its token, stays as it is, or stays absent.
pub find_row-apply :
    (c : Call) (j : ℕ) (repo : Repository)
    → j ≢ target c repo
    → find_row j (apply c repo).rows ≡ find_row j repo.rows
unfolding create insert new_row log_event delete set_enabled rotate_token set_token_ciphertext
find_row-apply (creates req now at) j repo ne =
    ground (arith, find_row-append_ne j repo.rows (new_row req (repo.seq + 1) now) ne)
find_row-apply (deletes id a at) j repo ne = ground (arith, find_row-delete_ne id j repo.rows ne)
find_row-apply (encrypts id c) j repo ne = ground (
  arith,
  find_row-update_ne id (λ (r : Row). record r { auth_token_ciphertext = c }) (λ r. refl) j
      repo.rows ne,
)
find_row-apply (books id b w msg now at) j repo ne = find_row-after_ne id b w msg now at repo j ne
find_row-apply (switches id b a now at) j repo ne = ground (
  arith,
  find_row-update_ne id (λ (r : Row). record r { mirror = enabled_as b now r.mirror })
      (λ r. id-enabled_as b now r.mirror) j repo.rows ne,
)
find_row-apply (rotates id a token hash now at) j repo ne = ground (
  arith,
  find_row-update_ne id
      (λ (r : Row). record r {
        mirror = record (r.mirror) { auth_token_hash = hash; updated_at = some now };
      })
      (λ r. refl) j repo.rows ne,
)
find_row-apply (updates id fields a now at) j repo ne =
    find_row-update_call_ne id fields a now at j repo ne
