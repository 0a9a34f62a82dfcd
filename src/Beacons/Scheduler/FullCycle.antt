-- ===== src/Beacons/Scheduler/FullCycle.antt =====
-- A cycle of 18 slots on one band.
use ham_spectrum_analysis.Prelude.{
  ℕ, zero, suc, ◌+◌, ◌-◌, ◌/◌, ◌%◌, ◌≡◌, ◌<◌, refl, Option, some, List, [], ◌∷◌, length, get_elem?,
  drop, In, inl, inr, subst, arith,
}
use ham_spectrum_analysis.Text.{Text}
use ham_spectrum_analysis.Beacons.Catalog.{
  BeaconBand, bands, slot_seconds, slots_per_cycle, slot_for, current_slot_index,
}
use ham_spectrum_analysis.Beacons.Catalog.Rotation.{slot_for-listed, length-beacons}
use ham_spectrum_analysis.Beacons.Scheduler.{Scheduler, Detection, SlotCalls, run_slots}
use ham_spectrum_analysis.Beacons.Scheduler.Cycle.{IsObserved, InTurn, NoPark, run_slots-IsRun}
use ham_spectrum_analysis.Beacons.Scheduler.Tuning.{IsTuned, run_slots-IsTuned}

slot-InTurn :
    (band : BeaconBand) (slot k : ℕ) (calls : List SlotCalls)
    → InTurn band slot calls
    → k < length calls
    → (c : SlotCalls) × In c calls × IsObserved band (slot + k) c
slot-InTurn band slot k [] t h = absurd (omega arith)
slot-InTurn band slot zero (c ∷ calls) t h =
    (c, inl refl, subst (λ n. IsObserved band n c) (omega arith) t.0)
slot-InTurn band slot (suc k) (c ∷ calls) t h =
    let (found, m, heard) = slot-InTurn band (suc slot) k calls t.1 (omega arith) in
    (found, inr m, subst (λ n. IsObserved band n found) (omega arith) heard)

-- Each beacon of the catalog has its observation, on the frequency of the band, in the slot in which it
-- sends on that band, which is the slot of the observation's time.
abbrev pub ObservesAll : BeaconBand → List SlotCalls → Type 0
ObservesAll band calls =
    (index : ℕ)
    → index < slots_per_cycle
    → (c : SlotCalls) × In c calls
      × (c.observation.beacon_index ≡ index)
      × (c.observation.freq_hz ≡ band.freq_hz)
      × (slot_for index band.index ≡ some c.observation.slot_index)
      × (current_slot_index c.observation.slot_start ≡ c.observation.slot_index)

InTurn-ObservesAll :
    (band : BeaconBand) (slot : ℕ) (calls : List SlotCalls)
    → band.index < length bands
    → InTurn band slot calls
    → length calls ≡ slots_per_cycle
    → ObservesAll band calls
InTurn-ObservesAll band slot calls listed t n index h =
    let k = (index + band.index + slots_per_cycle - slot % slots_per_cycle) % slots_per_cycle in
    let (c, m, (freq, inside, turn, number, time)) =
      slot-InTurn band slot k calls t (omega (arith, n)) in
    let sends : (index + band.index) % slots_per_cycle ≡ c.observation.slot_index =
      omega (arith, number) in
    (
      c,
      m,
      omega (arith, inside, turn, h),
      freq,
      slot_for-listed index band.index c.observation.slot_index (omega (arith, h, length-beacons))
          listed sends,
      omega (arith, time, number),
    )

-- Whenever it starts and whatever the detector finds, a cycle of 18 slots on a band observes each of
-- the 18 beacons on the frequency of that band, in the slot in which the beacon sends there, with the
-- receiver on that frequency where there is a callback that parks it. It makes 18 observations, parks
-- the receiver in the first slot at most, counts its slots, keeps the bands, and leaves the scheduler
-- at the start of the next one.
pub run_slots-cycle :
    (error : Text) (band : BeaconBand) (slot_start : ℕ) (results : List (Option Detection))
    (s : Scheduler)
    → get_elem? s.bands s.band_index ≡ some band
    → band.index < length bands
    → s.slots_on_band ≡ 0
    → length results ≡ slots_per_cycle
    → let (calls, last) = run_slots error slot_start results s in
      ObservesAll band calls
      × IsTuned s calls
      × (length calls ≡ slots_per_cycle)
      × NoPark (drop 1 calls)
      × (last.total_slots ≡ s.total_slots + slots_per_cycle)
      × (last.slots_on_band ≡ 0)
      × (last.bands ≡ s.bands)
      × (last.band_index ≡ (s.band_index + 1) % length s.bands)
run_slots-cycle error band slot_start [] s found listed start full = absurd (omega (arith, full))
run_slots-cycle error band slot_start (result ∷ results) s found listed start full =
    let (calls, last) = run_slots error slot_start (result ∷ results) s in
    let (turns, long, (same_bands, total, on_band, index), _, quiet) =
      run_slots-IsRun error band slot_start result results s (found, listed)
        (omega (arith, start, full)) in
    let at_end : length calls ≡ slots_per_cycle = omega (arith, long, full) in
    (
      InTurn-ObservesAll band (slot_start / slot_seconds) calls listed turns at_end,
      run_slots-IsTuned error slot_start (result ∷ results) s,
      at_end,
      quiet,
      omega (arith, total, full),
      omega (arith, on_band, start, full),
      same_bands,
      ground (arith, index, start, full),
    )
