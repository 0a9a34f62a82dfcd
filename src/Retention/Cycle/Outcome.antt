-- ===== src/Retention/Cycle/Outcome.antt =====
-- What a cycle of retention leaves.
use ham_spectrum_analysis.Prelude.{
  ℕ, ◌≡◌, ◌≢◌, ◌≤◌, ◌<◌, refl, sym, subst, Bool, true, false, ◌&&◌, not, Option, none, some, List,
  Distinct, leb, ◌==◌, ==_iff, is_empty, if◌then◌else◌, arith,
}
use ham_spectrum_analysis.Text.{Text}
use ham_spectrum_analysis.Retention.Tables.{
  EventRow, EventTables, ids_of, get_all_events_and_keep_newest,
}
use ham_spectrum_analysis.Retention.Tables.Marked.{table}
use ham_spectrum_analysis.Retention.Tables.Newest.{purge, total, IsPurged, purge-IsPurged}
use ham_spectrum_analysis.Retention.Cycle.{
  Limits, Export, Notification, RetentionState, count_result, first_of, purge_with, run_retention,
}

-- The events behind a cycle, and the notification that it gives and keeps.
abbrev pub IsNotified : (keep : ℕ) → EventTables → Option Notification × RetentionState → Type 0
IsNotified keep tables (notification, after) =
    (n : Notification) × (notification ≡ some n)
    × (after.notification ≡ some n)
    × IsPurged keep tables (n.purged, after.tables)

module _ (create_export : List EventRow → Option Export) (limits : Limits) where
  purge_with-IsNotified :
      (state : RetentionState)
      → IsPurged limits.keep_events state.tables (purge limits.keep_events state.tables)
      → IsNotified limits.keep_events state.tables (
          purge_with create_export limits
            (some (get_all_events_and_keep_newest limits.keep_events state.tables))
            state)
  unfolding purge_with
  purge_with-IsNotified state h =
      let events = (get_all_events_and_keep_newest limits.keep_events state.tables).events in
      let n : Notification = record {
        purged = (purge limits.keep_events state.tables).0;
        export = if limits.auto_export && not (is_empty events) then create_export events else none;
      } in
      (n, refl, refl, h)

  run_retention-count :
      (cutoff : Text) (state : RetentionState)
      → limits.max_events ≢ 0
      → limits.max_events ≤ total state.tables
      → run_retention create_export limits cutoff state
        ≡ purge_with create_export limits
            (some (get_all_events_and_keep_newest limits.keep_events state.tables))
            state
  unfolding run_retention count_result first_of
  run_retention-count cutoff state some_limit reached =
      let limited : (limits.max_events == 0) ≡ false =
        grind (arith, ==_iff limits.max_events 0, some_limit) in
      let full : leb limits.max_events (total state.tables) ≡ true = grind (arith, reached) in
      ground (arith, limited, full)

-- Where the events have reached their greatest number and are more than are to be kept, a cycle
-- leaves as many as are to be kept, of which none is older than one that went, and gives and keeps a
-- notification of how many went, whether or not they could be exported and whatever their age.
pub run_retention-IsNotified :
    (create_export : List EventRow → Option Export) (limits : Limits) (cutoff : Text)
    (state : RetentionState)
    → limits.max_events ≢ 0
    → limits.max_events ≤ total state.tables
    → limits.keep_events < total state.tables
    → ((t : Bool) → Distinct (ids_of (table t state.tables)))
    → IsNotified limits.keep_events state.tables (run_retention create_export limits cutoff state)
run_retention-IsNotified create_export limits cutoff state some_limit reached more unique =
    subst (IsNotified limits.keep_events state.tables)
      (sym (run_retention-count create_export limits cutoff state some_limit reached))
      (purge_with-IsNotified create_export limits state
        (purge-IsPurged limits.keep_events state.tables unique more))
