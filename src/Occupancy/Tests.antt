-- ===== src/Occupancy/Tests.antt =====
-- A narrow signal on 20 m, and frequencies at the edges of the windows.
use ham_spectrum_analysis.Prelude.{◌≡◌, ◌≢◌, ◌↔◌, refl, true, some, []}
use ham_spectrum_analysis.Text.{codes, same, strip, lower}
use ham_spectrum_analysis.Ingest.Bands.{infer_band_from_frequency}
use ham_spectrum_analysis.Occupancy.Hints.{hint_mode_by_frequency}
use ham_spectrum_analysis.Occupancy.Hints.Windows.{hint_mode_by_frequency_thirty}
use ham_spectrum_analysis.Occupancy.Events.{
  ScanConfig, OccupancyEvent, is_plausible_occupancy_event, frequency_within_scan_band,
}
use ham_spectrum_analysis.Occupancy.Events.Plausible.{IsPlausible, is_plausible_occupancy_event_iff}

abbrev config : ScanConfig
config = some (some 14000000, some 14350000)

-- Its lower half lies below the band.
abbrev signal : OccupancyEvent
signal = record {
  occupied = true;
  frequency_hz = some 13999000;
  bandwidth_hz = some 2400;
  snr_known = true;
  band = codes " 20M";
}

is_plausible_occupancy_event_iff_example :
    (is_plausible_occupancy_event config signal ≡ true) ↔ IsPlausible config signal
is_plausible_occupancy_event_iff_example = is_plausible_occupancy_event_iff config signal

passes : is_plausible_occupancy_event config signal ≡ true
unfolding is_plausible_occupancy_event frequency_within_scan_band lower strip same
passes = refl

hint_mode_by_frequency_thirty_example :
    hint_mode_by_frequency [] 10138700 (codes "30m") ≢ some (codes "WSPR")
hint_mode_by_frequency_thirty_example = hint_mode_by_frequency_thirty [] 10138700

inferred : hint_mode_by_frequency [] 14076000 [] ≡ some (codes "FT8")
unfolding hint_mode_by_frequency infer_band_from_frequency lower strip same
inferred = refl

-- The centre of FT4 on 80 m.
taken_for_ft8 : hint_mode_by_frequency [] 3575500 (codes "80m") ≡ some (codes "FT8")
unfolding hint_mode_by_frequency lower strip same
taken_for_ft8 = refl
