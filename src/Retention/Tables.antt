-- ===== src/Retention/Tables.antt =====
-- The event tables of backend/app/storage/db.py, and what its methods select and delete of them. The
-- columns that are only exported are left out. A timestamp is compared as a text, and rows of one
-- timestamp stay in the order of their keys.
pub mod Batches
pub mod Falling
pub mod Keys
pub mod Entries
pub mod Marked
pub mod Newest
pub mod Aged
use ham_spectrum_analysis.Prelude.{
  ℕ, zero, suc, ◌+◌, ◌-◌, Bool, true, false, ◌&&◌, not, List, [], ◌∷◌, ◌++◌, map, length, take,
  drop, any, leb, ltb, ◌==◌, is_empty, if◌then◌else◌,
}
use ham_spectrum_analysis.Text.{Text, text_leb}

pub record EventRow : Type 0 where
  pub id : ℕ
  pub timestamp : Text

-- `occupancy_events` and `callsign_events`, in the order of their keys.
pub record EventTables : Type 0 where
  pub occ : List EventRow
  pub call : List EventRow

abbrev pub ids_of : List EventRow → List ℕ
ids_of [] = []
ids_of (row ∷ rows) = row.id ∷ ids_of rows

-- `id IN (...)`
abbrev pub member : ℕ → List ℕ → Bool
member id ids = any (λ i. i == id) ids

-- Is one text before another?
abbrev pub before : Text → Text → Bool
before s t = not (text_leb t s)

-- `ORDER BY timestamp ASC`
abbrev pub insert_row : EventRow → List EventRow → List EventRow
insert_row row [] = row ∷ []
insert_row row (r ∷ rows) =
    let rest = insert_row row rows in
    if text_leb row.timestamp r.timestamp then row ∷ r ∷ rows else r ∷ rest

abbrev pub by_timestamp : List EventRow → List EventRow
by_timestamp [] = []
by_timestamp (row ∷ rows) = insert_row row (by_timestamp rows)

-- What a selection returns: the rows to export, and the keys to delete.
pub record Selection : Type 0 where
  pub events : List EventRow
  pub occ_ids : List ℕ
  pub call_ids : List ℕ
  pub count : ℕ

-- A row with its table, and `sorted(..., key=..., reverse=True)`.
pub record Entry : Type 0 where
  pub row : EventRow
  pub is_occ : Bool

abbrev pub tagged : Bool → List EventRow → List Entry
tagged is_occ [] = []
tagged is_occ (row ∷ rows) = record { row = row; is_occ = is_occ } ∷ tagged is_occ rows

abbrev pub insert_entry : Entry → List Entry → List Entry
insert_entry e [] = e ∷ []
insert_entry e (f ∷ entries) =
    let rest = insert_entry e entries in
    if text_leb f.row.timestamp e.row.timestamp then e ∷ f ∷ entries else f ∷ rest

abbrev pub newest_entries : List Entry → List Entry
newest_entries [] = []
newest_entries (e ∷ entries) = insert_entry e (newest_entries entries)

abbrev pub is_same : Bool → Bool → Bool
is_same true b = b
is_same false b = not b

-- The keys of one table among some entries.
abbrev pub keys_of : Bool → List Entry → List ℕ
keys_of is_occ [] = []
keys_of is_occ (e ∷ entries) =
    let rest = keys_of is_occ entries in if is_same is_occ e.is_occ then e.row.id ∷ rest else rest

abbrev pub without_ids : List ℕ → List EventRow → List EventRow
without_ids ids [] = []
without_ids ids (row ∷ rows) =
    let rest = without_ids ids rows in if member row.id ids then rest else row ∷ rest

pub get_all_events_and_keep_newest : (keep : ℕ) → EventTables → Selection
get_all_events_and_keep_newest keep tables =
    let occ_rows = by_timestamp tables.occ in
    let call_rows = by_timestamp tables.call in
    let kept = take keep (newest_entries (tagged true occ_rows ++ tagged false call_rows)) in
    let occ_ids = ids_of (without_ids (keys_of true kept) occ_rows) in
    let call_ids = ids_of (without_ids (keys_of false kept) call_rows) in
    if leb (length occ_rows + length call_rows) keep
    then record { events = occ_rows ++ call_rows; occ_ids = []; call_ids = []; count = 0 }
    else record {
      events = occ_rows ++ call_rows;
      occ_ids = occ_ids;
      call_ids = call_ids;
      count = length occ_ids + length call_ids;
    }

-- `timestamp < ?`
abbrev pub older_than : Text → List EventRow → List EventRow
older_than cutoff [] = []
older_than cutoff (row ∷ rows) =
    let rest = older_than cutoff rows in if before row.timestamp cutoff then row ∷ rest else rest

-- The union of two lists of keys.
abbrev pub union : List ℕ → List ℕ → List ℕ
union [] ids = ids
union (id ∷ more) ids = let rest = union more ids in if member id rest then rest else id ∷ rest

abbrev pub with_ids : List ℕ → List EventRow → List EventRow
with_ids ids [] = []
with_ids ids (row ∷ rows) =
    let rest = with_ids ids rows in if member row.id ids then row ∷ rest else rest

-- `SELECT id ... WHERE id NOT IN (...) ORDER BY timestamp ASC LIMIT ?`
abbrev pub oldest_ids : (limit : ℕ) → (age_ids : List ℕ) → List EventRow → List ℕ
oldest_ids limit age_ids rows = ids_of (take limit (by_timestamp (without_ids age_ids rows)))

-- By age where `days` is not 0, and then the oldest that are in excess, of the occupancy events first.
pub get_purgeable_events : (cutoff : Text) → (days max_events : ℕ) → EventTables → Selection
get_purgeable_events cutoff days max_events tables =
    let occ_age = if days == 0 then [] else ids_of (by_timestamp (older_than cutoff tables.occ)) in
    let call_age =
      if days == 0 then [] else ids_of (by_timestamp (older_than cutoff tables.call)) in
    let remaining = (length tables.occ - length occ_age) + (length tables.call - length call_age) in
    let excess = if max_events == 0 then 0 else remaining - max_events in
    let occ_count = oldest_ids excess occ_age tables.occ in
    let call_count = oldest_ids (excess - length occ_count) call_age tables.call in
    let occ_ids = union occ_age occ_count in
    let call_ids = union call_age call_count in
    let events = with_ids occ_ids tables.occ ++ with_ids call_ids tables.call in
    record { events = events; occ_ids = occ_ids; call_ids = call_ids; count = length events }

abbrev pub delete_batch_size : ℕ
delete_batch_size = 500

-- One DELETE: the rows that are left, and `rowcount`.
abbrev pub delete_batch : List ℕ → List EventRow → ℕ × List EventRow
delete_batch ids rows = (length rows - length (without_ids ids rows), without_ids ids rows)

-- The loop over the batches; there are no more of them than keys.
pub delete_ids_in_batches : (rounds : ℕ) → List ℕ → List EventRow → ℕ × List EventRow
delete_ids_in_batches zero ids rows = (0, rows)
delete_ids_in_batches (suc rounds) ids rows =
    let (n, left) = delete_batch (take delete_batch_size ids) rows in
    let (more, last) = delete_ids_in_batches rounds (drop delete_batch_size ids) left in
    if is_empty ids then (0, rows) else (n + more, last)

pub delete_events_by_ids : (occ_ids call_ids : List ℕ) → EventTables → ℕ × EventTables
delete_events_by_ids occ_ids call_ids tables =
    let (occ_deleted, occ) = delete_ids_in_batches (length occ_ids) occ_ids tables.occ in
    let (call_deleted, call) = delete_ids_in_batches (length call_ids) call_ids tables.call in
    (occ_deleted + call_deleted, record { occ = occ; call = call })
