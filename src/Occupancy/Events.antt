-- ===== src/Occupancy/Events.antt =====
-- `scan_band_bounds`, `frequency_within_scan_band` and `is_plausible_occupancy_event` of
-- backend/app/dependencies/helpers.py, in whole Hz. A number that is not above 0 is 0, and one that
-- is missing or refused is `none`; NaN is not written.
pub mod Plausible
use ham_spectrum_analysis.Prelude.{
  ℕ, ◌+◌, ◌*◌, Bool, true, false, ◌&&◌, ◌||◌, not, Option, none, some, List, [], ◌∷◌, any, leb, ltb,
  ◌==◌, if◌then◌else◌,
}
use ham_spectrum_analysis.Text.{Text, codes, same, strip, lower}

abbrev pub or_zero : Option ℕ → ℕ
or_zero none = 0
or_zero (some n) = n

-- `start_hz` and `end_hz` of the scan engine's configuration, where it has one.
abbrev pub ScanConfig : Type 0
ScanConfig = Option (Option ℕ × Option ℕ)

abbrev pub scan_band_bounds : ScanConfig → Option (ℕ × ℕ)
scan_band_bounds none = none
scan_band_bounds (some (start, end_)) =
    let start_hz = or_zero start in
    let end_hz = or_zero end_ in
    if start_hz == 0 || end_hz == 0 || leb end_hz start_hz then none else some (start_hz, end_hz)

-- The edges are compared in half Hz.
abbrev pub within_bounds : Option (ℕ × ℕ) → (frequency_hz bandwidth_hz : Option ℕ) → Bool
within_bounds none frequency_hz bandwidth_hz = true
within_bounds (some bounds) none bandwidth_hz = false
within_bounds (some (start_hz, end_hz)) (some freq) bandwidth_hz =
    let bw = or_zero bandwidth_hz in
    leb (2 * start_hz) (2 * freq + bw) && leb (2 * freq) (2 * end_hz + bw)

unfoldable pub frequency_within_scan_band :
    ScanConfig → (frequency_hz bandwidth_hz : Option ℕ) → Bool
frequency_within_scan_band config frequency_hz bandwidth_hz =
    within_bounds (scan_band_bounds config) frequency_hz bandwidth_hz

-- `snr_known`: is `snr_db` a number?
pub record OccupancyEvent : Type 0 where
  pub occupied : Bool
  pub frequency_hz : Option ℕ
  pub bandwidth_hz : Option ℕ
  pub snr_known : Bool
  pub band : Text

abbrev pub hf_bands : List Text
hf_bands =
    codes "160m"
    ∷ codes "80m"
    ∷ codes "60m"
    ∷ codes "40m"
    ∷ codes "30m"
    ∷ codes "20m"
    ∷ codes "17m"
    ∷ codes "15m"
    ∷ codes "12m"
    ∷ codes "10m"
    ∷ []

abbrev pub is_hf : (band : Text) → Bool
is_hf band = any (same (lower (strip band))) hf_bands

abbrev pub wrong_width : (hf : Bool) (bw : ℕ) → Bool
wrong_width hf bw = if hf then ltb bw 150 || ltb 2800 bw else ltb 25000 bw

unfoldable pub is_plausible_occupancy_event : ScanConfig → OccupancyEvent → Bool
is_plausible_occupancy_event config event =
    if not event.occupied
    then false
    else (if or_zero event.frequency_hz == 0
        then false
        else (if or_zero event.bandwidth_hz == 0
            then false
            else (if not event.snr_known
                then false
                else (if wrong_width (is_hf event.band) (or_zero event.bandwidth_hz)
                    then false
                    else frequency_within_scan_band config event.frequency_hz event.bandwidth_hz))))
