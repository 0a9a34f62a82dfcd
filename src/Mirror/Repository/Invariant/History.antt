-- ===== src/Mirror/Repository/Invariant/History.antt =====
-- Every history of calls, from the empty tables on.
use ham_spectrum_analysis.Prelude.{ℕ, Bool, Option, List, [], ◌∷◌}
use ham_spectrum_analysis.Text.{Text}
use ham_spectrum_analysis.Mirror.Repository.Model.{Field, Repository}
use ham_spectrum_analysis.Mirror.Repository.Create.{CreateRequest, open_repository, create}
use ham_spectrum_analysis.Mirror.Repository.Methods.{
  delete, set_enabled, rotate_token, set_token_ciphertext,
}
use ham_spectrum_analysis.Mirror.Repository.Bookkeeping.{update_after_push}
use ham_spectrum_analysis.Mirror.Repository.Update.{update}
use ham_spectrum_analysis.Mirror.Repository.Invariant.{IsRepository}
use ham_spectrum_analysis.Mirror.Repository.Invariant.Calls.{
  create-IsRepository, delete-IsRepository, set_enabled-IsRepository, rotate_token-IsRepository,
  set_token_ciphertext-IsRepository, update_after_push-IsRepository,
}
use ham_spectrum_analysis.Mirror.Repository.Invariant.Fields.{update-IsRepository}

-- A call of a method that writes, with its arguments.
pub data Call : Type 0 where
  creates : CreateRequest → (now logged_at : Text) → Call
  updates : ℕ → List Field → (actor : Option Text) → (now logged_at : Text) → Call
  deletes : ℕ → (actor : Option Text) → (logged_at : Text) → Call
  switches : ℕ → Bool → (actor : Option Text) → (now logged_at : Text) → Call
  rotates : ℕ → (actor : Option Text) → (new_token new_hash now logged_at : Text) → Call
  encrypts : ℕ → Option Text → Call
  books : ℕ → Bool → Option ℕ → Option Text → (now logged_at : Text) → Call

abbrev pub apply : Call → Repository → Repository
apply (creates req now logged_at) repo = (create req now logged_at repo).1
apply (updates id fields actor now logged_at) repo = (update id fields actor now logged_at repo).1
apply (deletes id actor logged_at) repo = (delete id actor logged_at repo).1
apply (switches id enabled actor now logged_at) repo =
    (set_enabled id enabled actor now logged_at repo).1
apply (rotates id actor token hash now logged_at) repo =
    (rotate_token id actor token hash now logged_at repo).1
apply (encrypts id ciphertext) repo = set_token_ciphertext id ciphertext repo
apply (books id success watermark msg now logged_at) repo =
    (update_after_push id success watermark msg now logged_at repo).1

abbrev pub apply_all : List Call → Repository → Repository
apply_all [] repo = repo
apply_all (c ∷ calls) repo = apply_all calls (apply c repo)

apply-IsRepository :
    (c : Call) (repo : Repository) → IsRepository repo → IsRepository (apply c repo)
apply-IsRepository (creates req now at) repo h = create-IsRepository req now at repo h
apply-IsRepository (updates id fields a now at) repo h =
    update-IsRepository id fields a now at repo h
apply-IsRepository (deletes id a at) repo h = delete-IsRepository id a at repo h
apply-IsRepository (switches id b a now at) repo h = set_enabled-IsRepository id b a now at repo h
apply-IsRepository (rotates id a token hash now at) repo h =
    rotate_token-IsRepository id a token hash now at repo h
apply-IsRepository (encrypts id c) repo h = set_token_ciphertext-IsRepository id c repo h
apply-IsRepository (books id b w msg now at) repo h =
    update_after_push-IsRepository id b w msg now at repo h

apply_all-from :
    (calls : List Call) (repo : Repository)
    → IsRepository repo
    → IsRepository (apply_all calls repo)
apply_all-from [] repo h = h
apply_all-from (c ∷ calls) repo h =
    apply_all-from calls (apply c repo) (apply-IsRepository c repo h)

-- After any calls on an empty repository, accepted or refused, the table is well-formed: the keys
-- are distinct and at most the AUTOINCREMENT counter, the names are distinct, and every mirror has a
-- valid name, an endpoint, an interval of ten seconds or more and a display name of at most 200
-- characters.
pub apply_all-IsRepository :
    (threshold : ℕ) (calls : List Call) → IsRepository (apply_all calls (open_repository threshold))
unfolding open_repository
apply_all-IsRepository threshold calls = apply_all-from calls (open_repository threshold) tt
