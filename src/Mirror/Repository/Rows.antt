-- ===== src/Mirror/Repository/Rows.antt =====
-- How the statements on the table of mirrors change what is read from it.
use ham_spectrum_analysis.Prelude.{ℕ, ◌≡◌, ◌≢◌, refl, Option, none, some, List, [], ◌∷◌, arith}
use ham_spectrum_analysis.Mirror.Repository.Model.{Row, find_row, update_rows, delete_rows}

-- A change of columns that leaves the key alone.
abbrev pub KeepsId : (Row → Row) → Type 0
KeepsId change = (r : Row) → (change r).mirror.id ≡ r.mirror.id

abbrev pub apply_found : (Row → Row) → Option Row → Option Row
apply_found change none = none
apply_found change (some r) = some (change r)

module _ (id : ℕ) (change : Row → Row) (keeps : KeepsId change) where
  pub find_row-update_self :
      (rows : List Row)
      → find_row id (update_rows id change rows) ≡ apply_found change (find_row id rows)
  find_row-update_self [] = refl
  find_row-update_self (r ∷ rows) = ground (arith, keeps r, find_row-update_self rows)

  pub find_row-update_ne :
      (j : ℕ) (rows : List Row) → j ≢ id → find_row j (update_rows id change rows) ≡ find_row j rows
  find_row-update_ne j [] ne = refl
  find_row-update_ne j (r ∷ rows) ne = ground (arith, keeps r, find_row-update_ne j rows ne)

find_row-delete_self : (id : ℕ) (rows : List Row) → find_row id (delete_rows id rows) ≡ none
find_row-delete_self id [] = refl
find_row-delete_self id (r ∷ rows) = ground (arith, find_row-delete_self id rows)

pub find_row-delete_ne :
    (id j : ℕ) (rows : List Row) → j ≢ id → find_row j (delete_rows id rows) ≡ find_row j rows
find_row-delete_ne id j [] ne = refl
find_row-delete_ne id j (r ∷ rows) ne = ground (arith, find_row-delete_ne id j rows ne)

id-find_row : (id : ℕ) (rows : List Row) (r : Row) → find_row id rows ≡ some r → r.mirror.id ≡ id
id-find_row id [] r e = ground arith
id-find_row id (x ∷ rows) r e = ground (arith, id-find_row id rows r)
