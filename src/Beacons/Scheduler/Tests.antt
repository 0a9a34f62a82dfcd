-- ===== src/Beacons/Scheduler/Tests.antt =====
-- A cycle on 20 metres that starts in the middle of the catalog's cycle.
use ham_spectrum_analysis.Prelude.{
  ◌+◌, ◌%◌, ◌≡◌, ◌<◌, refl, true, Option, none, some, List, [], ◌∷◌, ◌++◌, length, drop, replicate,
  arith,
}
use ham_spectrum_analysis.Text.{codes}
use ham_spectrum_analysis.Beacons.Catalog.{BeaconBand, bands, slots_per_cycle, next_slot_start}
use ham_spectrum_analysis.Beacons.Scheduler.{
  Scheduler, Detection, init, start, run_slots, align, sleep_ms, current_band,
}
use ham_spectrum_analysis.Beacons.Scheduler.Cycle.{NoPark}
use ham_spectrum_analysis.Beacons.Scheduler.Tuning.{IsTuned}
use ham_spectrum_analysis.Beacons.Scheduler.FullCycle.{ObservesAll, run_slots-cycle}
use ham_spectrum_analysis.Beacons.Scheduler.FullPass.{IsPass, run_slots-IsPass}

-- One signal is heard, and the other slots have no samples.
abbrev results : List (Option Detection)
results =
    some (record {
      detected = true;
      id_confirmed = true;
      id_confidence = 900;
      drift_ms = some (true, 12);
      dash_levels_detected = 2;
    })
    ∷ replicate 17 none

abbrev twenty : BeaconBand
twenty = record { index = 0; name = codes "20m"; freq_hz = 14100000 }

abbrev seventeen : BeaconBand
seventeen = record { index = 1; name = codes "17m"; freq_hz = 18110000 }

abbrev two_bands : Scheduler
two_bands = record {
  bands = twenty ∷ seventeen ∷ [];
  parks = true;
  running = true;
  band_index = 1;
  slots_on_band = 0;
  total_slots = 18;
  total_observations = 18;
  started_at = some 1700000000;
  stopped_at = none;
  last_error = none;
  parked_freq_hz = some 14100000;
}

catalog_band_twenty : twenty.index < length bands
unfolding bands
catalog_band_twenty = omega arith

catalog_band : seventeen.index < length bands
unfolding bands
catalog_band = omega arith

run_slots-cycle_example :
    let (calls, last) = run_slots [] 1700000030 results two_bands in
    ObservesAll seventeen calls
    × IsTuned two_bands calls
    × (length calls ≡ slots_per_cycle)
    × NoPark (drop 1 calls)
    × (last.total_slots ≡ 18 + slots_per_cycle)
    × (last.slots_on_band ≡ 0)
    × (last.bands ≡ two_bands.bands)
    × (last.band_index ≡ 2 % 2)
run_slots-cycle_example =
    run_slots-cycle [] seventeen 1700000030 results two_bands refl catalog_band refl refl

-- Two cycles that begin on the second of the two bands.
run_slots-IsPass_example : IsPass two_bands (run_slots [] 1700000030 (results ++ results) two_bands)
run_slots-IsPass_example =
    run_slots-IsPass [] 1700000030 (results ++ results) two_bands
      (catalog_band_twenty, (catalog_band, tt)) refl (omega arith) refl

-- 150 milliseconds before a slot it is too late for that slot.
late_start : align 1700000029850 ≡ (1700000040, 10150)
unfolding align next_slot_start
late_start = refl

drifted : sleep_ms 1700000030 1700000041000 ≡ 0
unfolding sleep_ms
drifted = refl

fresh_band : current_band (start 5 (init [] true)).1 ≡ some (codes "20m", 14100000)
unfolding current_band start init bands
fresh_band = refl
