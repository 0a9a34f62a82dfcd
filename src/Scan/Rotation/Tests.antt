-- ===== src/Scan/Rotation/Tests.antt =====
-- A payload with two bands, and its rotation.
use ham_spectrum_analysis.Prelude.{◌≡◌, refl, true, false, none, some, [], ◌∷◌, arith}
use ham_spectrum_analysis.Text.{codes, same, strip, lower}
use ham_spectrum_analysis.Scan.Rotation.{
  RotationConfig, Request, mode_slots, band_slots, requested_slots, from_dict, min_dwell,
  clamp_dwell, open_rotation, start, run,
}
use ham_spectrum_analysis.Scan.Rotation.Pass.{stopped_at, start-run-once}
use ham_spectrum_analysis.Scan.Rotation.Cycle.{IsCycle, start-run-loop}

abbrev request : Request
request = record {
  rotation_mode = none;
  dwell_s = some 5;
  loop = some false;
  band = [];
  modes = [];
  slots =
      record { band = codes "20m"; mode = codes " WSPR"; dwell_s = none }
      ∷ record { band = codes "40m"; mode = codes "ft8"; dwell_s = some 60 }
      ∷ [];
}

abbrev config : RotationConfig
config = record {
  slots =
      record { band = codes "20m"; mode = codes "wspr"; dwell_s = 120 }
      ∷ record { band = codes "40m"; mode = codes "ft8"; dwell_s = 60 }
      ∷ [];
  loop = false;
}

abbrev endless : RotationConfig
endless = record config { loop = true }

program : Unit {0}
unfolding from_dict requested_slots mode_slots band_slots clamp_dwell min_dwell same strip lower
program = tt

accepted : from_dict request ≡ some config
unfolding program
accepted = refl

once_example : run 3 (start (open_rotation config)).1 ≡ (config.slots, stopped_at config)
once_example = start-run-once config 3 refl refl (omega arith)

loop_example : IsCycle endless 5 0 (run 5 (start (open_rotation endless)).1)
loop_example = start-run-loop endless 5 refl refl
