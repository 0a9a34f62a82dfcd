-- ===== src/Scan/Schedules.antt =====
-- The schedules of rotation presets: the table `preset_schedules` of backend/app/storage/db.py, its
-- handlers in backend/app/api/scan.py, and `PresetScheduler` of
-- backend/app/scan/preset_scheduler.py.
pub mod Disjoint
pub mod Accepted
pub mod Scheduler
mod Tests
use ham_spectrum_analysis.Prelude.{
  ℕ, zero, suc, ◌+◌, Bool, true, false, not, ◌&&◌, ◌||◌, Option, none, some, List, [], ◌∷◌, ◌++◌,
  any, is_empty, ◌==◌, if◌then◌else◌,
}
use ham_spectrum_analysis.Text.{Text, same, strip, text_leb}
use ham_spectrum_analysis.Scan.Windows.{is_hhmm, hhmm_to_minutes, time_in_window, windows_overlap}

pub record Schedule : Type 0 where
  pub id : ℕ
  pub preset_id : ℕ
  pub start_hhmm : Text
  pub end_hhmm : Text
  pub enabled : Bool

-- The tables of presets (their ids) and of schedules, with the AUTOINCREMENT counter of the latter.
pub record Store : Type 0 where
  pub presets : List ℕ
  pub schedules : List Schedule
  pub seq : ℕ

-- `ORDER BY s.start_hhmm`; rows of one start stay in the order of their keys.
insert_by_start : Schedule → List Schedule → List Schedule
insert_by_start s [] = s ∷ []
insert_by_start s (r ∷ rows) =
    let rest = insert_by_start s rows in
    if text_leb s.start_hhmm r.start_hhmm then s ∷ r ∷ rows else r ∷ rest

sort_by_start : List Schedule → List Schedule
unfolding insert_by_start
sort_by_start [] = []
sort_by_start (s ∷ rows) = insert_by_start s (sort_by_start rows)

pub get_preset_schedules : Store → List Schedule
unfolding sort_by_start
get_preset_schedules store = sort_by_start store.schedules

-- The INSERT of `save_preset_schedule`.
pub save_preset_schedule : (preset_id : ℕ) → (start_hhmm end_hhmm : Text) → Store → Store
save_preset_schedule preset_id start_hhmm end_hhmm store = record store {
  schedules =
      store.schedules
      ++ record {
        id = store.seq + 1;
        preset_id = preset_id;
        start_hhmm = start_hhmm;
        end_hhmm = end_hhmm;
        enabled = true;
      }
        ∷ [];
  seq = store.seq + 1;
}

abbrev pub set_enabled : ℕ → Bool → List Schedule → List Schedule
set_enabled id enabled [] = []
set_enabled id enabled (s ∷ rows) =
    (if s.id == id then record s { enabled = enabled } else s) ∷ set_enabled id enabled rows

abbrev pub has_schedule : ℕ → List Schedule → Bool
has_schedule id rows = any (λ s. s.id == id) rows

abbrev pub delete_rows : ℕ → List Schedule → List Schedule
delete_rows id [] = []
delete_rows id (s ∷ rows) = let rest = delete_rows id rows in if s.id == id then rest else s ∷ rest

-- Both return whether a row was there.
pub toggle_preset_schedule : ℕ → Bool → Store → Bool × Store
toggle_preset_schedule id enabled store = (
  has_schedule id store.schedules,
  record store { schedules = set_enabled id enabled store.schedules },
)

pub delete_preset_schedule : ℕ → Store → Bool × Store
delete_preset_schedule id store =
    (has_schedule id store.schedules, record store { schedules = delete_rows id store.schedules })

-- The window of a schedule, in minutes; `none` is a ValueError.
abbrev pub both : Option ℕ → Option ℕ → Option (ℕ × ℕ)
both (some s) (some e) = some (s, e)
both _ _ = none

abbrev pub window : Text → Text → Option (ℕ × ℕ)
window start_hhmm end_hhmm = both (hhmm_to_minutes start_hhmm) (hhmm_to_minutes end_hhmm)

-- What `create_preset_schedule` answers: the HTTP errors, and `crash` for an exception.
pub data Answer : Type 0 where
  preset_required bad_time same_time preset_not_found overlaps crash created : Answer

-- The loop over the schedules that are there.
abbrev pub meets : Option (ℕ × ℕ) → Option (ℕ × ℕ) → Answer → Answer
meets (some (new_s, new_e)) (some (ex_s, ex_e)) rest =
    if windows_overlap new_s new_e ex_s ex_e then overlaps else rest
meets _ _ rest = crash

abbrev pub check_overlap : Option (ℕ × ℕ) → List Schedule → Answer
check_overlap new_window [] = created
check_overlap new_window (s ∷ rows) =
    let rest = check_overlap new_window rows in
    if not s.enabled then rest else meets new_window (window s.start_hhmm s.end_hhmm) rest

abbrev save_if : Answer → ℕ → Text → Text → Store → Answer × Store
save_if created preset_id start_hhmm end_hhmm store =
    (created, save_preset_schedule preset_id start_hhmm end_hhmm store)
save_if answer preset_id start_hhmm end_hhmm store = (answer, store)

-- `create_preset_schedule`; a `preset_id` that is missing or no int is `none`, and 0 is refused too.
abbrev pub check_schedule : Option ℕ → (start_hhmm end_hhmm : Text) → Store → Answer
check_schedule none start_hhmm end_hhmm store = preset_required
check_schedule (some zero) start_hhmm end_hhmm store = preset_required
check_schedule (some (suc n)) start_hhmm end_hhmm store =
    if not (is_hhmm start_hhmm) || not (is_hhmm end_hhmm)
    then bad_time
    else if same start_hhmm end_hhmm
    then same_time
    else if not (any (λ p. p == suc n) store.presets)
    then preset_not_found
    else check_overlap (window start_hhmm end_hhmm) (get_preset_schedules store)

abbrev id_or : Option ℕ → ℕ
id_or none = 0
id_or (some n) = n

pub create_preset_schedule : Option ℕ → (start_hhmm end_hhmm : Text) → Store → Answer × Store
create_preset_schedule preset_id start_hhmm end_hhmm store =
    save_if (check_schedule preset_id (strip start_hhmm) (strip end_hhmm) store) (id_or preset_id)
      (strip start_hhmm) (strip end_hhmm) store
