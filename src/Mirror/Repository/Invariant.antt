-- ===== src/Mirror/Repository/Invariant.antt =====
-- What holds of the table of mirrors in every state, and the statements that keep it.
pub mod Calls
pub mod Fields
pub mod History
pub mod Isolation
pub mod Endings
pub mod Audit
mod Tests
use ham_spectrum_analysis.Prelude.{
  ℕ, ◌+◌, ◌≡◌, ◌≢◌, ◌≤◌, ap, sym, ◌∙◌, refl, inl, inr, Bool, true, false, Bool-cases, Option, none,
  some, List, [], ◌∷◌, ◌++◌, All, All-append, arith, is_empty, ltb, ◌==◌, if◌then◌else◌,
}
use ham_spectrum_analysis.Text.{Text, same, same_iff}
use ham_spectrum_analysis.Mirror.Repository.Names.{valid_name}
use ham_spectrum_analysis.Mirror.Repository.Model.{
  ExternalMirror, Row, Repository, find_row, update_rows, delete_rows, name_taken,
}
use ham_spectrum_analysis.Mirror.Repository.Create.{too_long}

-- One mirror: a valid name, an endpoint, an interval of ten seconds at least, a short display name.
pub record IsMirror (m : ExternalMirror) : Type 0 where
  pub named : valid_name m.name ≡ true
  pub located : is_empty m.endpoint_url ≡ false
  pub paced : 10 ≤ m.push_interval_seconds
  pub shown : too_long m.display_name ≡ false

abbrev pub Differ : Row → Row → Type 0
Differ r s = (r.mirror.id ≢ s.mirror.id) × (r.mirror.name ≢ s.mirror.name)

-- The keys are distinct and at most the AUTOINCREMENT counter, and the names are distinct.
abbrev pub IsTable : ℕ → List Row → Type 0
IsTable seq [] = Unit
IsTable seq (r ∷ rows) =
    IsMirror r.mirror × (r.mirror.id ≤ seq) × All (Differ r) rows × IsTable seq rows

abbrev pub IsRepository : Repository → Type 0
IsRepository repo = IsTable repo.seq repo.rows

-- No mirror but the one with this id has the name.
abbrev pub IsFree : Text → ℕ → List Row → Type 0
IsFree wanted id = All (λ r. r.mirror.id ≢ id → r.mirror.name ≢ wanted)

pub name_taken-IsFree :
    (wanted : Text) (id : ℕ) (rows : List Row)
    → name_taken wanted id rows ≡ false
    → IsFree wanted id rows
name_taken-IsFree wanted id [] e = tt
name_taken-IsFree wanted id (r ∷ rows) e =
    ground (arith, same_iff r.mirror.name wanted, name_taken-IsFree wanted id rows)

delete_rows-Differ :
    (id : ℕ) (r : Row) (rows : List Row)
    → All (Differ r) rows
    → All (Differ r) (delete_rows id rows)
delete_rows-Differ id r [] h = tt
delete_rows-Differ id r (s ∷ rows) h = ground (arith, delete_rows-Differ id r rows h.1)

pub delete_rows-IsTable :
    (id seq : ℕ) (rows : List Row) → IsTable seq rows → IsTable seq (delete_rows id rows)
delete_rows-IsTable id seq [] h = tt
delete_rows-IsTable id seq (r ∷ rows) (m, le, d, h) =
    ground (arith, delete_rows-Differ id r rows d, delete_rows-IsTable id seq rows h)

-- Rows without the key are not touched.
update_rows_absent :
    (id : ℕ) (change : Row → Row) (rows : List Row)
    → All (λ s. s.mirror.id ≢ id) rows
    → update_rows id change rows ≡ rows
update_rows_absent id change [] h = refl
update_rows_absent id change (s ∷ rows) h = ground (arith, update_rows_absent id change rows h.1)

pub Differ-absent :
    (id : ℕ) (r : Row) (rows : List Row)
    → r.mirror.id ≡ id
    → All (Differ r) rows
    → All (λ s. s.mirror.id ≢ id) rows
Differ-absent id r [] e h = tt
Differ-absent id r (s ∷ rows) e h = ground (arith, Differ-absent id r rows e h.1)

-- The found row, with its new columns, stands well among the others.
Differ-renamed :
    (id : ℕ) (r r' : Row) (rows : List Row)
    → r.mirror.id ≡ id
    → r'.mirror.id ≡ id
    → All (Differ r) rows
    → IsFree r'.mirror.name id rows
    → All (Differ r') rows
Differ-renamed id r r' [] e e' h free = tt
Differ-renamed id r r' (s ∷ rows) e e' h free =
    ground (arith, Differ-renamed id r r' rows e e' h.1 free.1)

module _ (id seq : ℕ) (change : Row → Row)
    (keeps : (r : Row) → (change r).mirror.id ≡ r.mirror.id) where
  update_rows-Differ :
      (x : Row) (rows : List Row)
      → x.mirror.id ≢ id
      → IsTable seq rows
      → All (Differ x) rows
      → ((r : Row) → find_row id rows ≡ some r → x.mirror.name ≢ (change r).mirror.name)
      → All (Differ x) (update_rows id change rows)
  update_rows-Differ x [] ne table h free = tt
  update_rows-Differ x (s ∷ rows) ne (m, le, d, table) h free =
      elim (Bool-cases (s.mirror.id == id)) [
        | inl here ↦
            let same_id : s.mirror.id ≡ id = ground arith in
            let rest = update_rows_absent id change rows (Differ-absent id s rows same_id d) in
            let apart : Differ x (change s) = (ground (arith, keeps s), free s (ground arith)) in
            rw (here, rest) (apart, h.1)
        | inr apart ↦
            let rest = update_rows-Differ x rows ne table h.1 (λ r at. free r (ground arith)) in
            rw apart (h.0, rest)
      ]

  -- An UPDATE keeps the table if the row that it finds gets good columns and a free name.
  pub update_rows-IsTable :
      (rows : List Row)
      → IsTable seq rows
      → ((r : Row)
          → find_row id rows ≡ some r
          → IsMirror (change r).mirror × IsFree (change r).mirror.name id rows)
      → IsTable seq (update_rows id change rows)
  update_rows-IsTable [] table good = tt
  update_rows-IsTable (s ∷ rows) (m, le, d, table) good = elim (Bool-cases (s.mirror.id == id)) [
    | inl here ↦
        let same_id : s.mirror.id ≡ id = ground arith in
        let rest = update_rows_absent id change rows (Differ-absent id s rows same_id d) in
        let (fine, free) = good s (ground arith) in
        rw (here, rest)
          (
            fine,
            omega (arith, keeps s),
            Differ-renamed id s (change s) rows same_id (keeps s ∙ same_id) d free.1,
            table,
          )
    | inr apart ↦
        let other : s.mirror.id ≢ id = ground arith in
        let names =
          λ (r : Row) (at : find_row id rows ≡ some r). (good r (ground arith)).1.0 other in
        rw apart (
          m,
          le,
          update_rows-Differ s rows other table d names,
          update_rows-IsTable rows table
              (λ r at. let (fine, free) = good r (ground arith) in (fine, free.1)),
        )
  ]

pub append-IsTable :
    (seq : ℕ) (rows : List Row) (r : Row)
    → IsTable seq rows
    → IsMirror r.mirror
    → r.mirror.id ≡ seq + 1
    → IsFree r.mirror.name (seq + 1) rows
    → IsTable (seq + 1) (rows ++ r ∷ [])
append-IsTable seq [] r table m e free = ground arith
append-IsTable seq (s ∷ rows) r (fine, le, d, table) m e free = (
  fine,
  omega arith,
  All-append (Differ s) rows (r ∷ []) d (ground arith),
  append-IsTable seq rows r table m e free.1,
)
