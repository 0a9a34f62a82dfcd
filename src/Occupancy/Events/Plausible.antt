-- ===== src/Occupancy/Events/Plausible.antt =====
-- Which occupancy events pass.
use ham_spectrum_analysis.Prelude.{
  ℕ, ◌+◌, ◌*◌, ◌≡◌, ◌↔◌, ◌≤◌, ◌<◌, refl, Bool, true, false, ◌||◌, not, Option, none, some, leb,
  ◌==◌, if◌then◌else◌, arith,
}
use ham_spectrum_analysis.Occupancy.Events.{
  or_zero, ScanConfig, scan_band_bounds, within_bounds, frequency_within_scan_band, OccupancyEvent,
  is_hf, wrong_width, is_plausible_occupancy_event,
}

-- The signal, from `freq - bw / 2` to `freq + bw / 2`, meets the band of the scan, where it has one.
abbrev pub Meets : Option (ℕ × ℕ) → (freq bw : ℕ) → Type 0
Meets none freq bw = Unit
Meets (some (start_hz, end_hz)) freq bw =
    (0 < start_hz)
    × (start_hz < end_hz)
    × (2 * start_hz ≤ 2 * freq + bw)
    × (2 * freq ≤ 2 * end_hz + bw)

abbrev pub IsWidth : (hf : Bool) → (bw : ℕ) → Type 0
IsWidth true bw = (150 ≤ bw) × (bw ≤ 2800)
IsWidth false bw = bw ≤ 25000

wrong_width_iff : (hf : Bool) (bw : ℕ) → (wrong_width hf bw ≡ false) ↔ IsWidth hf bw
wrong_width_iff true bw = ground arith
wrong_width_iff false bw = ground arith

within_bounds_iff :
    (refused : Bool) (start_hz end_hz freq : ℕ) (bandwidth_hz : Option ℕ)
    → (start_hz == 0 || end_hz == 0 || leb end_hz start_hz) ≡ refused
    → let bounds : Option (ℕ × ℕ) = if refused then none else some (start_hz, end_hz) in
      (within_bounds bounds (some freq) bandwidth_hz ≡ true)
      ↔ Meets bounds freq (or_zero bandwidth_hz)
within_bounds_iff true start_hz end_hz freq bandwidth_hz e = (λ _. tt, λ _. refl)
within_bounds_iff false start_hz end_hz freq bandwidth_hz e =
    (λ h. ground (arith, e, h), λ h. ground (arith, e, h))

frequency_within_scan_band_iff :
    (config : ScanConfig) (frequency_hz bandwidth_hz : Option ℕ)
    → 0 < or_zero frequency_hz
    → (frequency_within_scan_band config frequency_hz bandwidth_hz ≡ true)
      ↔ Meets (scan_band_bounds config) (or_zero frequency_hz) (or_zero bandwidth_hz)
unfolding frequency_within_scan_band
frequency_within_scan_band_iff config none bandwidth_hz h = absurd (omega (arith, h))
frequency_within_scan_band_iff none (some freq) bandwidth_hz h = (λ _. tt, λ _. refl)
frequency_within_scan_band_iff (some (start, end_)) (some freq) bandwidth_hz h =
    within_bounds_iff
      (or_zero start == 0 || or_zero end_ == 0 || leb (or_zero end_) (or_zero start))
      (or_zero start) (or_zero end_) freq bandwidth_hz refl

-- The returns of `is_plausible_occupancy_event`.
guards_iff :
    (occupied known wrong within : Bool) (freq bw : ℕ)
    → ((if not occupied
          then false
          else (if freq == 0
              then false
              else (if bw == 0
                  then false
                  else (if not known then false else (if wrong then false else within)))))
        ≡ true)
      ↔ ((occupied ≡ true)
          × (0 < freq)
          × (0 < bw)
          × (known ≡ true)
          × (wrong ≡ false)
          × (within ≡ true))
guards_iff occupied known wrong within freq bw = ground arith

abbrev pub IsPlausible : ScanConfig → OccupancyEvent → Type 0
IsPlausible config event =
    let freq = or_zero event.frequency_hz in
    let bw = or_zero event.bandwidth_hz in
    (event.occupied ≡ true)
    × (0 < freq)
    × (0 < bw)
    × (event.snr_known ≡ true)
    × IsWidth (is_hf event.band) bw
    × Meets (scan_band_bounds config) freq bw

-- An event passes exactly if it is occupied, has a frequency and a bandwidth above 0 and an SNR, is as
-- wide as a signal of its band can be, and meets the band of the scan, where the scan has one.
pub is_plausible_occupancy_event_iff :
    (config : ScanConfig) (event : OccupancyEvent)
    → (is_plausible_occupancy_event config event ≡ true) ↔ IsPlausible config event
unfolding is_plausible_occupancy_event
is_plausible_occupancy_event_iff config event =
    let freq = or_zero event.frequency_hz in
    let bw = or_zero event.bandwidth_hz in
    let hf = is_hf event.band in
    let within = frequency_within_scan_band config event.frequency_hz event.bandwidth_hz in
    let (only, enough) =
      guards_iff event.occupied event.snr_known (wrong_width hf bw) within freq bw in
    (
      λ h.
          let (o, f, b, k, w, m) = only h in
          let meets =
            frequency_within_scan_band_iff config event.frequency_hz event.bandwidth_hz f in
          (o, f, b, k, (wrong_width_iff hf bw).0 w, meets.0 m),
      λ (o, f, b, k, w, m).
          let meets =
            frequency_within_scan_band_iff config event.frequency_hz event.bandwidth_hz f in
          enough (o, f, b, k, (wrong_width_iff hf bw).1 w, meets.1 m),
    )
