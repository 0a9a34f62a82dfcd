-- ===== src/Retention/Tests.antt =====
-- Five events in two tables, of which two share a time.
use ham_spectrum_analysis.Prelude.{
  ℕ, inl, refl, Bool, true, false, Option, none, List, [], ◌∷◌, Distinct, arith,
}
use ham_spectrum_analysis.Text.{Text, codes}
use ham_spectrum_analysis.Retention.Tables.{EventRow, EventTables, ids_of}
use ham_spectrum_analysis.Retention.Tables.Marked.{table}
use ham_spectrum_analysis.Retention.Tables.Aged.{IsAged}
use ham_spectrum_analysis.Retention.Cycle.{Limits, Export, RetentionState, run_retention}
use ham_spectrum_analysis.Retention.Cycle.Outcome.{IsNotified, run_retention-IsNotified}
use ham_spectrum_analysis.Retention.Cycle.Aged.{run_retention-IsAged}

abbrev row : ℕ → Text → EventRow
row id timestamp = record { id = id; timestamp = timestamp }

abbrev tables : EventTables
tables = record {
  occ =
      row 1 (codes "2026-02-01T10:00:00+00:00")
      ∷ row 2 (codes "2026-02-03T10:00:00+00:00")
      ∷ row 4 (codes "2026-02-02T10:00:00+00:00")
      ∷ [];
  call = row 1 (codes "2026-02-02T10:00:00+00:00") ∷ row 2 (codes "2026-02-04T10:00:00+00:00") ∷ [];
}

tables-Distinct : (t : Bool) → Distinct (ids_of (table t tables))
tables-Distinct true = ground arith
tables-Distinct false = ground arith

abbrev state : RetentionState
state = record { tables = tables; notification = none }

abbrev no_export : List EventRow → Option Export
no_export rows = none

abbrev limits : Limits
limits = record { days = 30; max_events = 5; keep_events = 2; auto_export = true }

abbrev cutoff : Text
cutoff = codes "2026-02-02T00:00:00+00:00"

run_retention-IsNotified_example : IsNotified 2 tables (run_retention no_export limits cutoff state)
run_retention-IsNotified_example =
    run_retention-IsNotified no_export limits cutoff state (omega arith) (omega arith) (omega arith)
      tables-Distinct

abbrev by_age : Limits
by_age = record { days = 30; max_events = 0; keep_events = 2; auto_export = true }

run_retention-IsAged_example :
    IsAged cutoff tables (run_retention no_export by_age cutoff state).1.tables
run_retention-IsAged_example =
    run_retention-IsAged no_export by_age cutoff state (omega arith) (inl refl) tables-Distinct
