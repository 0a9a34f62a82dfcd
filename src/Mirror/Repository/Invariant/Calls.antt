-- ===== src/Mirror/Repository/Invariant/Calls.antt =====
-- The methods that do not rename a mirror keep the table.
use ham_spectrum_analysis.Prelude.{
  ℕ, ◌+◌, ◌≡◌, sym, subst, refl, inl, inr, Bool, true, false, Bool-cases, Option, some, List, [],
  ◌∷◌, All, arith, is_empty, ltb, ◌==◌,
}
use ham_spectrum_analysis.Text.{Text, strip}
use ham_spectrum_analysis.Mirror.Repository.Names.{valid_name}
use ham_spectrum_analysis.Mirror.Repository.Model.{
  Row, AuditEvent, Details, Repository, find_row, update_rows, name_taken, log_event,
}
use ham_spectrum_analysis.Mirror.Repository.Create.{
  CreateRequest, clean_display_name, too_long, new_row, insert, create,
}
use ham_spectrum_analysis.Mirror.Repository.Methods.{
  delete, enabled_as, set_enabled, rotate_token, set_token_ciphertext,
}
use ham_spectrum_analysis.Mirror.Repository.Bookkeeping.{after_push, update_after_push}
use ham_spectrum_analysis.Mirror.Repository.Invariant.{
  IsMirror, IsTable, IsRepository, IsFree, Differ, name_taken-IsFree, delete_rows-IsTable,
  update_rows-IsTable, append-IsTable,
}

log_event-IsRepository :
    (id : ℕ) (event : AuditEvent) (actor : Option Text) (details : Option Details) (now : Text)
    (repo : Repository)
    → IsRepository repo
    → IsRepository (log_event id event actor details now repo)
unfolding log_event
log_event-IsRepository id event actor details now repo h = h

insert-IsRepository :
    (req : CreateRequest) (now logged_at : Text) (repo : Repository)
    → IsRepository repo
    → IsMirror (new_row req (repo.seq + 1) now).mirror
    → IsRepository (insert req now logged_at repo).1
unfolding insert new_row log_event
insert-IsRepository req now logged_at repo h good =
    elim (Bool-cases (name_taken (strip req.name) (repo.seq + 1) repo.rows)) [
      | inl taken ↦ rw taken h
      | inr free ↦ rw free (
          append-IsTable repo.seq repo.rows (new_row req (repo.seq + 1) now) h good refl
            (name_taken-IsFree (strip req.name) (repo.seq + 1) repo.rows free))
    ]

new_row-IsMirror :
    (req : CreateRequest) (id : ℕ) (now : Text)
    → valid_name (strip req.name) ≡ true
    → is_empty (strip req.endpoint_url) ≡ false
    → ltb req.push_interval_seconds 10 ≡ false
    → too_long (clean_display_name req.display_name) ≡ false
    → IsMirror (new_row req id now).mirror
unfolding new_row
new_row-IsMirror req id now named located paced shown = record {
  named = named;
  located = located;
  paced = ground (arith, paced);
  shown = shown;
}

pub create-IsRepository :
    (req : CreateRequest) (now logged_at : Text) (repo : Repository)
    → IsRepository repo
    → IsRepository (create req now logged_at repo).1
unfolding create
create-IsRepository req now logged_at repo h =
    let inserted =
      λ (named : valid_name (strip req.name) ≡ true)
          (located : is_empty (strip req.endpoint_url) ≡ false)
          (paced : ltb req.push_interval_seconds 10 ≡ false)
          (shown : too_long (clean_display_name req.display_name) ≡ false).
        insert-IsRepository req now logged_at repo h
          (new_row-IsMirror req (repo.seq + 1) now named located paced shown) in
    ground (arith, inserted)

pub delete-IsRepository :
    (id : ℕ) (actor : Option Text) (logged_at : Text) (repo : Repository)
    → IsRepository repo
    → IsRepository (delete id actor logged_at repo).1
unfolding delete log_event
delete-IsRepository id actor logged_at repo h =
    ground (arith, delete_rows-IsTable id repo.seq repo.rows h)

-- A change of columns that leaves what the invariant reads.
abbrev pub IsMinor : (Row → Row) → Type 0
IsMinor change =
    (r : Row)
    → ((change r).mirror.id ≡ r.mirror.id)
      × ((change r).mirror.name ≡ r.mirror.name)
      × (IsMirror r.mirror → IsMirror (change r).mirror)

Differ-found :
    (id : ℕ) (s : Row) (rows : List Row) (r : Row)
    → All (Differ s) rows
    → find_row id rows ≡ some r
    → Differ s r
Differ-found id s [] r d at = ground arith
Differ-found id s (t ∷ rows) r d at = ground (arith, Differ-found id s rows r d.1)

Differ-IsFree :
    (id : ℕ) (s : Row) (rows : List Row) → All (Differ s) rows → IsFree s.mirror.name id rows
Differ-IsFree id s [] d = tt
Differ-IsFree id s (t ∷ rows) d = (λ ne e. d.0.1 (sym e), Differ-IsFree id s rows d.1)

pub found-IsFree :
    (id seq : ℕ) (rows : List Row) (r : Row)
    → IsTable seq rows
    → find_row id rows ≡ some r
    → IsMirror r.mirror × IsFree r.mirror.name id rows
found-IsFree id seq [] r table at = ground arith
found-IsFree id seq (s ∷ rows) r (fine, le, d, table) at = elim (Bool-cases (s.mirror.id == id)) [
  | inl here ↦
      let same_row : s ≡ r = ground arith in
      subst (λ (x : Row). IsMirror x.mirror × IsFree x.mirror.name id (s ∷ rows)) same_row
        (fine, (λ ne. absurd (ne (ground arith)), Differ-IsFree id s rows d))
  | inr apart ↦
      let later : find_row id rows ≡ some r = ground arith in
      let (fine_r, free_r) = found-IsFree id seq rows r table later in
      (fine_r, (λ ne. (Differ-found id s rows r d later).1, free_r))
]

update_minor-IsTable :
    (id seq : ℕ) (change : Row → Row) (rows : List Row)
    → IsMinor change
    → IsTable seq rows
    → IsTable seq (update_rows id change rows)
update_minor-IsTable id seq change rows minor table =
    update_rows-IsTable id seq change (λ r. (minor r).0) rows table
      (λ r at.
        let (fine, free) = found-IsFree id seq rows r table at in
        ((minor r).2 fine, subst (λ t. IsFree t id rows) (sym (minor r).1) free))

enabled_as-IsMinor :
    (enabled : Bool) (now : Text)
    → IsMinor (λ r. record r { mirror = enabled_as enabled now r.mirror })
unfolding enabled_as
enabled_as-IsMinor true now r = (refl, refl, λ m. ground (arith, m))
enabled_as-IsMinor false now r = (refl, refl, λ m. ground (arith, m))

pub set_enabled-IsRepository :
    (id : ℕ) (enabled : Bool) (actor : Option Text) (now logged_at : Text) (repo : Repository)
    → IsRepository repo
    → IsRepository (set_enabled id enabled actor now logged_at repo).1
unfolding set_enabled log_event
set_enabled-IsRepository id enabled actor now logged_at repo h =
    let changed =
      update_minor-IsTable id repo.seq (λ r. record r { mirror = enabled_as enabled now r.mirror })
        repo.rows (enabled_as-IsMinor enabled now) h in
    ground (arith, changed)

pub rotate_token-IsRepository :
    (id : ℕ) (actor : Option Text) (new_token new_hash now logged_at : Text) (repo : Repository)
    → IsRepository repo
    → IsRepository (rotate_token id actor new_token new_hash now logged_at repo).1
unfolding rotate_token log_event
rotate_token-IsRepository id actor new_token new_hash now logged_at repo h =
    let changed =
      update_minor-IsTable id repo.seq
        (λ r. record r {
          mirror = record (r.mirror) { auth_token_hash = new_hash; updated_at = some now };
        })
        repo.rows (λ r. (refl, refl, λ m. ground (arith, m))) h in
    ground (arith, changed)

pub set_token_ciphertext-IsRepository :
    (id : ℕ) (ciphertext : Option Text) (repo : Repository)
    → IsRepository repo
    → IsRepository (set_token_ciphertext id ciphertext repo)
unfolding set_token_ciphertext
set_token_ciphertext-IsRepository id ciphertext repo h =
    update_minor-IsTable id repo.seq (λ r. record r { auth_token_ciphertext = ciphertext })
      repo.rows (λ r. (refl, refl, λ m. m)) h

after_push-IsMinor :
    (success : Bool) (threshold : ℕ) (watermark : Option ℕ) (msg : Option Text) (now : Text)
    → IsMinor (λ r. record r { mirror = after_push success threshold watermark msg now r.mirror })
unfolding after_push
after_push-IsMinor true threshold watermark msg now r = (refl, refl, λ m. ground (arith, m))
after_push-IsMinor false threshold watermark msg now r =
    (ground arith, ground arith, λ m. ground (arith, m))

pub update_after_push-IsRepository :
    (id : ℕ) (success : Bool) (watermark : Option ℕ) (msg : Option Text) (now logged_at : Text)
    (repo : Repository)
    → IsRepository repo
    → IsRepository (update_after_push id success watermark msg now logged_at repo).1
unfolding update_after_push log_event
update_after_push-IsRepository id success watermark msg now logged_at repo h =
    let changed =
      update_minor-IsTable id repo.seq
        (λ r. record r {
          mirror = after_push success repo.auto_disable_threshold watermark msg now r.mirror;
        })
        repo.rows (after_push-IsMinor success repo.auto_disable_threshold watermark msg now) h in
    ground (arith, changed)
