-- ===== src/Mirror/Table.antt =====
-- The event tables of backend/app/storage/db.py (`callsign_events`, `occupancy_events`) as SQLite
-- keeps them: rows in the order of their primary key, and the counter of AUTOINCREMENT, which
-- never goes back when rows are deleted. And the queries that the mirrors make.
use ham_spectrum_analysis.Prelude.{
  ◌++◌, Bool, ◌≡◌, ℕ, zero, suc, ◌≤◌, ◌<◌, max, inl, inr, List, [], ◌∷◌, In, take, arith, ltb,
  if◌then◌else◌,
}
use ham_spectrum_analysis.Text.{Text}

-- A row: its key, and its other columns by name.
pub record Event : Type 0 where
  pub id : ℕ
  pub columns : List (Text × Text)

-- `SELECT * FROM table WHERE id > ?`
abbrev pub rows_after : ℕ → List Event → List Event
rows_after watermark [] = []
rows_after watermark (r ∷ rows) =
    let rest = rows_after watermark rows in if ltb watermark r.id then r ∷ rest else rest

-- `SELECT MAX(id)`, with 0 for an empty table, as `int(max_row["m"] or 0)` reads it.
abbrev pub max_id : List Event → ℕ
max_id [] = 0
max_id (r ∷ rows) = max r.id (max_id rows)

-- The keys rise strictly, and pass `bound`.
abbrev pub IsAscending : ℕ → List Event → Type 0
IsAscending bound [] = Unit
IsAscending bound (r ∷ rows) = (bound < r.id) × IsAscending r.id rows

IsAscending-le : (a b : ℕ) (rows : List Event) → a ≤ b → IsAscending b rows → IsAscending a rows
IsAscending-le a b [] h k = tt
IsAscending-le a b (r ∷ rows) h k = (omega arith, k.1)

pub lt_of_In : (a : ℕ) (r : Event) (rows : List Event) → IsAscending a rows → In r rows → a < r.id
lt_of_In a r [] h m = absurd m
lt_of_In a r (x ∷ rows) h (inl e) = ground arith
lt_of_In a r (x ∷ rows) h (inr m) = omega (arith, lt_of_In x.id r rows h.1 m)

pub le_max_id : (r : Event) (rows : List Event) → In r rows → r.id ≤ max_id rows
le_max_id r [] m = absurd m
le_max_id r (x ∷ rows) (inl e) = ground arith
le_max_id r (x ∷ rows) (inr m) = omega (arith, le_max_id r rows m)

pub rows_after-IsAscending :
    (a watermark : ℕ) (rows : List Event)
    → IsAscending a rows
    → IsAscending a (rows_after watermark rows)
rows_after-IsAscending a watermark [] h = tt
rows_after-IsAscending a watermark (r ∷ rows) h = ground (
  arith,
  rows_after-IsAscending r.id watermark rows h.1,
  IsAscending-le a r.id (rows_after watermark rows),
)

pub In-rows_after :
    (watermark : ℕ) (r : Event) (rows : List Event)
    → watermark < r.id
    → In r rows
    → In r (rows_after watermark rows)
In-rows_after watermark r [] h m = m
In-rows_after watermark r (x ∷ rows) h (inl e) = ground arith
In-rows_after watermark r (x ∷ rows) h (inr m) = ground (arith, In-rows_after watermark r rows h m)

-- A row whose key is at most the last key of a page stands on the page.
pub In-take_of_le :
    (a limit : ℕ) (r : Event) (rows : List Event)
    → IsAscending a rows
    → In r rows
    → r.id ≤ max_id (take limit rows)
    → In r (take limit rows)
In-take_of_le a limit r [] h m k = absurd m
In-take_of_le a zero r (x ∷ rows) h m k = absurd (omega (arith, lt_of_In a r (x ∷ rows) h m))
In-take_of_le a (suc limit) r (x ∷ rows) h (inl e) k = inl e
In-take_of_le a (suc limit) r (x ∷ rows) h (inr m) k =
    inr (In-take_of_le x.id limit r rows h.1 m (omega (arith, lt_of_In x.id r rows h.1 m)))

-- A row that AUTOINCREMENT adds, and a DELETE of the rows that `keep` does not name.
abbrev pub keep_rows : (Event → Bool) → List Event → List Event
keep_rows keep [] = []
keep_rows keep (r ∷ rows) = let rest = keep_rows keep rows in if keep r then r ∷ rest else rest

pub In-keep_rows :
    (keep : Event → Bool) (r : Event) (rows : List Event) → In r (keep_rows keep rows) → In r rows
In-keep_rows keep r [] m = m
In-keep_rows keep r (x ∷ rows) m = ground (arith, In-keep_rows keep r rows)

pub keep_rows-IsAscending :
    (a : ℕ) (keep : Event → Bool) (rows : List Event)
    → IsAscending a rows
    → IsAscending a (keep_rows keep rows)
keep_rows-IsAscending a keep [] h = tt
keep_rows-IsAscending a keep (r ∷ rows) h =
    ground
      (arith, keep_rows-IsAscending r.id keep rows h.1, IsAscending-le a r.id (keep_rows keep rows))

-- A row whose key passes all others goes to the end.
pub append-IsAscending :
    (a : ℕ) (rows : List Event) (r : Event)
    → IsAscending a rows
    → a < r.id
    → max_id rows < r.id
    → IsAscending a (rows ++ r ∷ [])
append-IsAscending a [] r h new_ top = (new_, tt)
append-IsAscending a (x ∷ rows) r h new_ top =
    (h.0, append-IsAscending x.id rows r h.1 (omega arith) (omega arith))

pub max_id-append :
    (rows : List Event) (r : Event) → max_id (rows ++ r ∷ []) ≡ max (max_id rows) r.id
max_id-append [] r = omega arith
max_id-append (x ∷ rows) r = omega (arith, max_id-append rows r)

pub max_id-keep_rows :
    (keep : Event → Bool) (rows : List Event) → max_id (keep_rows keep rows) ≤ max_id rows
max_id-keep_rows keep [] = omega arith
max_id-keep_rows keep (r ∷ rows) = ground (arith, max_id-keep_rows keep rows)

pub max_id-take-le : (n : ℕ) (rows : List Event) → max_id (take n rows) ≤ max_id rows
max_id-take-le zero rows = omega arith
max_id-take-le (suc n) [] = omega arith
max_id-take-le (suc n) (r ∷ rows) = omega (arith, max_id-take-le n rows)

pub max_id-rows_after-le :
    (watermark : ℕ) (rows : List Event) → max_id (rows_after watermark rows) ≤ max_id rows
max_id-rows_after-le watermark [] = omega arith
max_id-rows_after-le watermark (r ∷ rows) = ground (arith, max_id-rows_after-le watermark rows)
