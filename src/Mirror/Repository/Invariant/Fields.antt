-- ===== src/Mirror/Repository/Invariant/Fields.antt =====
-- `update` keeps the table: each accepted field is valid, and a new name is free.
use ham_spectrum_analysis.Prelude.{
  ℕ, ◌≡◌, ◌≤◌, ap, ◌∙◌, subst, refl, true, false, Option, none, some, List, [], ◌∷◌, All, arith,
  is_empty,
}
use ham_spectrum_analysis.Text.{Text}
use ham_spectrum_analysis.Mirror.Repository.Names.{valid_name}
use ham_spectrum_analysis.Mirror.Repository.Model.{
  ExternalMirror, Row, Field, name, endpoint_url, push_interval_seconds, data_scopes,
  retention_days, enabled, display_name, Repository, Result, ok, err, update_rows, name_taken,
  log_event, get_locked,
}
use ham_spectrum_analysis.Mirror.Repository.Create.{too_long}
use ham_spectrum_analysis.Mirror.Repository.Update.{
  check_field, check_fields, add_change, assign, assign_all, write, update,
}
use ham_spectrum_analysis.Mirror.Repository.Invariant.{
  IsMirror, IsTable, IsRepository, name_taken-IsFree, update_rows-IsTable,
}
use ham_spectrum_analysis.Mirror.Repository.Invariant.Calls.{found-IsFree}

-- A value that the column may hold.
abbrev IsValid : Field → Type 0
IsValid (name v) = valid_name v ≡ true
IsValid (endpoint_url v) = is_empty v ≡ false
IsValid (push_interval_seconds v) = 10 ≤ v
IsValid (display_name v) = too_long v ≡ false
IsValid _ = Unit

abbrev IsChange : Option (Field × Field) → Type 0
IsChange none = Unit
IsChange (some c) = IsValid c.1

abbrev Accepts : {A : Type 0} → (A → Type 0) → Result A → Type 0
Accepts P (ok a) = P a
Accepts P (err e) = Unit

check_field-IsChange :
    (current : ExternalMirror) (f : Field) → Accepts IsChange (check_field current f)
unfolding check_field
check_field-IsChange current (name given) = ground arith
check_field-IsChange current (endpoint_url given) = ground arith
check_field-IsChange current (push_interval_seconds v) = ground arith
check_field-IsChange current (data_scopes v) = ground arith
check_field-IsChange current (retention_days v) = ground arith
check_field-IsChange current (enabled v) = ground arith
check_field-IsChange current (display_name given) = ground arith

check_fields-IsChange :
    (current : ExternalMirror) (fields : List Field)
    → Accepts (All (λ c. IsValid c.1)) (check_fields current fields)
unfolding check_fields add_change
check_fields-IsChange current [] = tt
check_fields-IsChange current (f ∷ fields) =
    go (check_field current f) (check_fields current fields) (check_field-IsChange current f)
      (check_fields-IsChange current fields)
  where
    go :
        (first : Result (Option (Field × Field))) (rest : Result (List (Field × Field)))
        → Accepts IsChange first
        → Accepts (All (λ c. IsValid c.1)) rest
        → Accepts (All (λ c. IsValid c.1)) (elim first [
          | err e ↦ err e
          | ok change ↦ elim rest [ err e ↦ err e | ok changes ↦ ok (add_change change changes) ]
        ])
    go (err e) rest h k = tt
    go (ok change) (err e) h k = tt
    go (ok none) (ok changes) h k = k
    go (ok (some c)) (ok changes) h k = (h, k)

assign-IsMirror : (f : Field) (m : ExternalMirror) → IsValid f → IsMirror m → IsMirror (assign f m)
unfolding assign
assign-IsMirror (name v) m valid fine = ground (arith, fine)
assign-IsMirror (endpoint_url v) m valid fine = ground (arith, fine)
assign-IsMirror (push_interval_seconds v) m valid fine = ground (arith, fine)
assign-IsMirror (data_scopes v) m valid fine = ground (arith, fine)
assign-IsMirror (retention_days v) m valid fine = ground (arith, fine)
assign-IsMirror (enabled v) m valid fine = ground (arith, fine)
assign-IsMirror (display_name v) m valid fine = ground (arith, fine)

id-assign : (f : Field) (m : ExternalMirror) → (assign f m).id ≡ m.id
unfolding assign
id-assign (name v) m = refl
id-assign (endpoint_url v) m = refl
id-assign (push_interval_seconds v) m = refl
id-assign (data_scopes v) m = refl
id-assign (retention_days v) m = refl
id-assign (enabled v) m = refl
id-assign (display_name v) m = refl

assign_all-IsMirror :
    (changes : List (Field × Field)) (m : ExternalMirror)
    → All (λ c. IsValid c.1) changes
    → IsMirror m
    → IsMirror (assign_all changes m)
unfolding assign_all
assign_all-IsMirror [] m valid fine = fine
assign_all-IsMirror ((old, new_) ∷ changes) m valid fine =
    assign_all-IsMirror changes (assign new_ m) valid.1 (assign-IsMirror new_ m valid.0 fine)

pub id-assign_all :
    (changes : List (Field × Field)) (m : ExternalMirror) → (assign_all changes m).id ≡ m.id
unfolding assign_all
id-assign_all [] m = refl
id-assign_all ((old, new_) ∷ changes) m = id-assign_all changes (assign new_ m) ∙ id-assign new_ m

module _ (id : ℕ) (changes : List (Field × Field)) (now : Text) (repo : Repository)
    (h : IsRepository repo) where
  abbrev rewritten : Row → Row
  rewritten r = record r { mirror = record (assign_all changes r.mirror) { updated_at = some now } }

  rewritten-IsTable :
      (current : ExternalMirror)
      → get_locked id repo ≡ ok current
      → All (λ c. IsValid c.1) changes
      → name_taken (assign_all changes current).name id repo.rows ≡ false
      → IsTable repo.seq (update_rows id rewritten repo.rows)
  unfolding get_locked
  rewritten-IsTable current found valid free =
      update_rows-IsTable id repo.seq rewritten (λ r. id-assign_all changes r.mirror) repo.rows h
        (λ r at.
          let same_row : r.mirror ≡ current = ground arith in
          let fine =
            assign_all-IsMirror changes r.mirror valid
              (found-IsFree id repo.seq repo.rows r h at).0 in
          (
            ground (arith, fine),
            name_taken-IsFree (assign_all changes r.mirror).name id repo.rows
                (ap (λ m. name_taken (assign_all changes m).name id repo.rows) same_row ∙ free),
          ))

  write-IsRepository :
      (actor : Option Text) (logged_at : Text) (current : ExternalMirror)
      → get_locked id repo ≡ ok current
      → All (λ c. IsValid c.1) changes
      → IsRepository (write id changes actor now logged_at current repo).1
  unfolding write log_event
  write-IsRepository actor logged_at current found valid =
      ground (arith, h, rewritten-IsTable current found valid)

pub update-IsRepository :
    (id : ℕ) (fields : List Field) (actor : Option Text) (now logged_at : Text) (repo : Repository)
    → IsRepository repo
    → IsRepository (update id fields actor now logged_at repo).1
unfolding update
update-IsRepository id fields actor now logged_at repo h =
    let written =
      λ (current : ExternalMirror) (changes : List (Field × Field))
          (found : get_locked id repo ≡ ok current)
          (checked : check_fields current fields ≡ ok changes).
        write-IsRepository id changes now repo h actor logged_at current found (
          subst (Accepts (All (λ c. IsValid c.1))) checked
            (check_fields-IsChange current fields)) in
    grind (arith, h, written)
