-- ===== src/FtSync/Slots/Tests.antt =====
-- Two stations on 20 metres in one slot of 15 seconds, the first of them heard twice.
use ham_spectrum_analysis.Prelude.{ℕ, some, none, List, [], ◌∷◌, arith}
use ham_spectrum_analysis.Text.{codes}
use ham_spectrum_analysis.FtSync.Tracks.{Config, Candidate, heard_at, not_a_dict, hear_candidates}
use ham_spectrum_analysis.FtSync.Tracks.Reports.{IsHeard, hear_candidates-IsHeard}
use ham_spectrum_analysis.FtSync.Slots.{Slot, Update, init, update_all, cleanup_slots}
use ham_spectrum_analysis.FtSync.Slots.Kept.{IsNewest, cleanup_slots-IsNewest}
use ham_spectrum_analysis.FtSync.Slots.Invariant.{IsTracker, update_all-IsTracker}

abbrev config : Config
config = record { slot_seconds = 15; min_hits = 2; freq_tolerance_hz = 40; max_slots = 2 }

abbrev heard : List Candidate
heard =
    heard_at 14074500 (some (codes "ft8 ")) 700 98700
    ∷ not_a_dict
    ∷ heard_at 14075900 none 500 97900
    ∷ heard_at 14074510 (some (codes "FT8")) 900 98500
    ∷ []

hear_candidates-IsHeard_example :
    IsHeard config 1700000100 heard [] (hear_candidates config 1700000100 heard [])
hear_candidates-IsHeard_example =
    hear_candidates-IsHeard config 1700000100 heard [] (omega arith) tt

abbrev slot : ℕ → Slot
slot epoch = record { slot_epoch = epoch; tracks = [] }

-- A late slot between two newer ones.
cleanup_slots-IsNewest_example :
    IsNewest 2
      (slot 45 ∷ slot 15 ∷ slot 30 ∷ [])
      (cleanup_slots 2 (slot 45 ∷ slot 15 ∷ slot 30 ∷ []))
cleanup_slots-IsNewest_example =
    cleanup_slots-IsNewest 2 (slot 45 ∷ slot 15 ∷ slot 30 ∷ []) (ground arith)

abbrev updates : List Update
updates =
    record { stamp = 1; now = 1700000107; candidates = heard }
    ∷ record { stamp = 2; now = 1700000071; candidates = heard }
    ∷ record { stamp = 3; now = 1700000125; candidates = [] }
    ∷ []

update_all-IsTracker_example : IsTracker (update_all updates (init 15 2 40 2))
update_all-IsTracker_example = update_all-IsTracker 15 2 40 2 updates
