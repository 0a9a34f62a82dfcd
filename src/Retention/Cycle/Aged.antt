-- ===== src/Retention/Cycle/Aged.antt =====
-- What a cycle of retention leaves where it goes by age.
use ham_spectrum_analysis.Prelude.{
  ◌≡◌, ◌≢◌, ◌<◌, ◌⊎◌, refl, sym, subst, Bool, true, false, ◌&&◌, not, Option, none, some, List,
  Distinct, leb, ◌==◌, ==_iff, if◌then◌else◌, arith,
}
use ham_spectrum_analysis.Text.{Text}
use ham_spectrum_analysis.Retention.Tables.{EventRow, ids_of}
use ham_spectrum_analysis.Retention.Tables.Marked.{table}
use ham_spectrum_analysis.Retention.Tables.Newest.{total}
use ham_spectrum_analysis.Retention.Tables.Aged.{
  IsAged, aged_selection, get_purgeable_events-aged, aged_selection-IsAged, aged_selection-empty,
}
use ham_spectrum_analysis.Retention.Cycle.{
  Limits, Export, RetentionState, count_result, age_result, first_of, purge_with, run_retention,
}

module _ (create_export : List EventRow → Option Export) (limits : Limits) (cutoff : Text)
    (state : RetentionState) where
  -- The cycle by age alone.
  run_retention-age :
      limits.days ≢ 0
      → (limits.max_events ≡ 0) ⊎ (total state.tables < limits.max_events)
      → run_retention create_export limits cutoff state
        ≡ purge_with create_export limits
            (if (aged_selection cutoff state.tables).count == 0
              then none
              else some (aged_selection cutoff state.tables))
            state
  unfolding run_retention count_result age_result first_of
  run_retention-age some_days below =
      let timed : (limits.days == 0) ≡ false = grind (arith, ==_iff limits.days 0, some_days) in
      let uncounted : not (limits.max_events == 0) && leb limits.max_events (total state.tables)
          ≡ false =
        ground (arith, below) in
      let aged = get_purgeable_events-aged cutoff limits.days state.tables some_days in
      rw (timed, uncounted, aged) refl

  purge_with-IsAged :
      ((t : Bool) → Distinct (ids_of (table t state.tables)))
      → (b : Bool) → ((aged_selection cutoff state.tables).count == 0) ≡ b
      → IsAged cutoff state.tables
          (purge_with create_export limits
            (if b then none else some (aged_selection cutoff state.tables))
            state).1.tables
  unfolding purge_with
  purge_with-IsAged unique true e =
      aged_selection-empty cutoff state.tables unique
        ((==_iff (aged_selection cutoff state.tables).count 0).0 e)
  purge_with-IsAged unique false e = aged_selection-IsAged cutoff state.tables unique

-- Where the events have not reached their greatest number, or there is none, a cycle that goes by age
-- leaves exactly the events of both tables that are not before the time, exported or not.
pub run_retention-IsAged :
    (create_export : List EventRow → Option Export) (limits : Limits) (cutoff : Text)
    (state : RetentionState)
    → limits.days ≢ 0
    → (limits.max_events ≡ 0) ⊎ (total state.tables < limits.max_events)
    → ((t : Bool) → Distinct (ids_of (table t state.tables)))
    → IsAged cutoff state.tables (run_retention create_export limits cutoff state).1.tables
run_retention-IsAged create_export limits cutoff state some_days below unique =
    subst (λ r. IsAged cutoff state.tables r.1.tables)
      (sym (run_retention-age create_export limits cutoff state some_days below))
      (purge_with-IsAged create_export limits cutoff state unique
        ((aged_selection cutoff state.tables).count == 0) refl)
