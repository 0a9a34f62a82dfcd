-- ===== src/Retention/Cycle.antt =====
-- `run_retention` of backend/app/core/retention.py. What `create_export` gives is an argument, and
-- the purge of the satellite tables behind it is left out.
pub mod Outcome
pub mod Aged
use ham_spectrum_analysis.Prelude.{
  ℕ, ◌+◌, Bool, true, false, ◌&&◌, not, Option, none, some, List, [], ◌∷◌, length, leb, ◌==◌,
  is_empty, if◌then◌else◌,
}
use ham_spectrum_analysis.Text.{Text}
use ham_spectrum_analysis.Retention.Tables.{
  EventRow, EventTables, Selection, get_all_events_and_keep_newest, get_purgeable_events,
  delete_events_by_ids,
}

-- `retention_days`, `retention_max_events`, `retention_keep_events`, `retention_auto_export`
pub record Limits : Type 0 where
  pub days : ℕ
  pub max_events : ℕ
  pub keep_events : ℕ
  pub auto_export : Bool

pub record Export : Type 0 where
  pub id : Text
  pub row_count : ℕ

-- The entries `exported` and `download_url` follow from the export.
pub record Notification : Type 0 where
  pub purged : ℕ
  pub export : Option Export

-- The events, and the notification that is kept for the next broadcast.
pub record RetentionState : Type 0 where
  pub tables : EventTables
  pub notification : Option Notification

count_result : Limits → EventTables → Option Selection
count_result limits tables =
    if not (limits.max_events == 0)
      && leb limits.max_events (length tables.occ + length tables.call)
    then some (get_all_events_and_keep_newest limits.keep_events tables)
    else none

age_result : Limits → (cutoff : Text) → EventTables → Option Selection
age_result limits cutoff tables =
    let selection = get_purgeable_events cutoff limits.days 0 tables in
    if limits.days == 0 then none else if selection.count == 0 then none else some selection

-- The selection by count takes priority.
first_of : Option Selection → Option Selection → Option Selection
first_of none age = age
first_of (some count) age = some count

-- `none` of `create_export` is an exception: the events are deleted nonetheless.
purge_with :
    (create_export : List EventRow → Option Export)
    → Limits
    → Option Selection
    → RetentionState
    → Option Notification × RetentionState
purge_with create_export limits none state = (none, state)
purge_with create_export limits (some result) state =
    let export =
      if limits.auto_export && not (is_empty result.events)
      then create_export result.events
      else none in
    let (deleted, tables) = delete_events_by_ids result.occ_ids result.call_ids state.tables in
    let notification : Option Notification = some (record { purged = deleted; export = export }) in
    (notification, record { tables = tables; notification = notification })

pub run_retention :
    (create_export : List EventRow → Option Export)
    → Limits
    → (cutoff : Text) → RetentionState
    → Option Notification × RetentionState
unfolding count_result age_result first_of purge_with
run_retention create_export limits cutoff state =
    if limits.days == 0 && limits.max_events == 0
    then (none, state)
    else purge_with create_export limits
        (first_of (count_result limits state.tables) (age_result limits cutoff state.tables)) state
