-- ===== src/Beacons/Scheduler/Cycle.antt =====
-- A cycle on one band.
use ham_spectrum_analysis.Prelude.{
  ℕ, suc, ◌+◌, ◌/◌, ◌%◌, ◌≡◌, ◌⊎◌, ◌∙◌, ◌≤◌, ◌<◌, refl, false, Option, none, some, List, [], ◌∷◌,
  length, get_elem?, drop, All, leb, if◌then◌else◌, sym, ap, subst, arith,
}
use ham_spectrum_analysis.Text.{Text}
use ham_spectrum_analysis.Beacons.Catalog.{
  BeaconBand, bands, slot_seconds, slots_per_cycle, current_slot_index,
}
use ham_spectrum_analysis.Beacons.Catalog.Rotation.{beacon_at-index}
use ham_spectrum_analysis.Beacons.Catalog.Clock.{current_slot_index_lem}
use ham_spectrum_analysis.Beacons.Scheduler.{
  Scheduler, Detection, SlotCalls, run_slot, run_slots, on_band, on_beacon, observe, park_on,
  count_slot, is_parked_on,
}

-- The scheduler listens on a band of the catalog.
abbrev pub Listens : BeaconBand → Scheduler → Type 0
Listens band s = (get_elem? s.bands s.band_index ≡ some band) × (band.index < length bands)

-- What a slot on a band observes: its frequency, and the beacon of the slot, under the slot's number
-- and time.
abbrev pub IsObserved : BeaconBand → (slot : ℕ) → SlotCalls → Type 0
IsObserved band slot calls =
    (calls.observation.freq_hz ≡ band.freq_hz)
    × (calls.observation.beacon_index < slots_per_cycle)
    × ((calls.observation.beacon_index + band.index) % slots_per_cycle ≡ slot % slots_per_cycle)
    × (calls.observation.slot_index ≡ slot % slots_per_cycle)
    × (current_slot_index calls.observation.slot_start ≡ slot % slots_per_cycle)

run_slot-IsObserved :
    (band : BeaconBand) (slot_start : ℕ) (result : Option Detection) (s : Scheduler)
    → Listens band s
    → (calls : SlotCalls) × (run_slot slot_start result s
        ≡ some (calls, count_slot (park_on band s).1))
      × IsObserved band (slot_start / slot_seconds) calls
      × (calls.park_call ≡ (park_on band s).0)
unfolding run_slot on_band on_beacon observe
run_slot-IsObserved band slot_start result s (e, h) =
    let slot = current_slot_index slot_start in
    let clock = current_slot_index_lem slot_start in
    let (beacon, found, listed, turn) = beacon_at-index slot band.index (omega (arith, clock)) h in
    let calls : SlotCalls = record {
      slot_start_call = (beacon.callsign, band.freq_hz, slot, slot_start);
      park_call = (park_on band s).0;
      observation = observe band beacon slot slot_start result;
    } in
    (calls, rw (e, found) refl, (refl, listed, turn ∙ clock, clock, clock), refl)

-- Slot by slot from a slot on.
abbrev pub InTurn : BeaconBand → (slot : ℕ) → List SlotCalls → Type 0
InTurn band slot [] = Unit
InTurn band slot (calls ∷ later) = IsObserved band slot calls × InTurn band (suc slot) later

abbrev pub IsParked : BeaconBand → Scheduler → Type 0
IsParked band s = (s.parks ≡ false) ⊎ (s.parked_freq_hz ≡ some band.freq_hz)

abbrev pub NoPark : List SlotCalls → Type 0
NoPark = All (λ calls. calls.park_call ≡ none)

-- The counts behind some slots on one band.
abbrev pub IsCounted : (n : ℕ) → (s last : Scheduler) → Type 0
IsCounted n s last =
    (last.bands ≡ s.bands)
    × (last.total_slots ≡ s.total_slots + n)
    × (last.slots_on_band ≡ (s.slots_on_band + n) % slots_per_cycle)
    × (last.band_index ≡ (
        if leb slots_per_cycle (s.slots_on_band + n)
        then (s.band_index + 1) % length s.bands
        else s.band_index))

park_on-IsParked :
    (band : BeaconBand) (s : Scheduler)
    → IsParked band (count_slot (park_on band s).1) × (IsParked band s → (park_on band s).0 ≡ none)
unfolding park_on is_parked_on count_slot
park_on-IsParked band s = ground arith

count_slot-IsCounted :
    (band : BeaconBand) (s : Scheduler)
    → s.slots_on_band < slots_per_cycle
    → IsCounted 1 s (count_slot (park_on band s).1)
unfolding park_on count_slot
count_slot-IsCounted band s h = ground (arith, h)

-- A band over some slots: the beacons in turn, the counts, and no park behind the first slot.
abbrev pub IsRun : BeaconBand → (slot n : ℕ) → Scheduler → List SlotCalls × Scheduler → Type 0
IsRun band slot n s (calls, last) =
    InTurn band slot calls
    × (length calls ≡ n)
    × IsCounted n s last
    × (IsParked band s → NoPark calls)
    × NoPark (drop 1 calls)

pub run_slots-none :
    (error : Text) (slot_start : ℕ) (r : Option Detection) (a : List (Option Detection))
    (s : Scheduler)
    → run_slot slot_start r s ≡ none
    → (run_slots error slot_start (r ∷ a) s).0 ≡ []
unfolding run_slots
run_slots-none error slot_start r a s e = rw (e, run_slots) refl

pub run_slots-nil :
    (error : Text) (slot_start : ℕ) (s : Scheduler) → run_slots error slot_start [] s ≡ ([], s)
unfolding run_slots
run_slots-nil error slot_start s = refl

pub run_slots-cons :
    (error : Text) (slot_start : ℕ) (result : Option Detection) (results : List (Option Detection))
    (calls : SlotCalls) (s next : Scheduler)
    → run_slot slot_start result s ≡ some (calls, next)
    → let (later, last) = run_slots error (slot_start + slot_seconds) results next in
      run_slots error slot_start (result ∷ results) s ≡ (calls ∷ later, last)
unfolding run_slots
run_slots-cons error slot_start result results calls s next e = rw (e, run_slots) refl

run_slots-one :
    (error : Text) (slot_start : ℕ) (result : Option Detection) (calls : SlotCalls)
    (s next : Scheduler)
    → run_slot slot_start result s ≡ some (calls, next)
    → run_slots error slot_start (result ∷ []) s ≡ (calls ∷ [], next)
unfolding run_slots
run_slots-one error slot_start result calls s next e = rw (e, run_slots) refl

count_on :
    (n : ℕ) (s next last : Scheduler)
    → s.slots_on_band + 1 < slots_per_cycle
    → IsCounted 1 s next
    → IsCounted n next last
    → IsCounted (suc n) s last
count_on n s next last h a b = grind (arith, h, a, b)

Listens-next :
    (band : BeaconBand) (s next : Scheduler)
    → s.slots_on_band + 1 < slots_per_cycle
    → IsCounted 1 s next
    → Listens band s
    → Listens band next
Listens-next band s next h a l = ground (arith, h, a, l)

pub run_slots-IsRun :
    (error : Text) (band : BeaconBand) (slot_start : ℕ) (result : Option Detection)
    (results : List (Option Detection)) (s : Scheduler)
    → Listens band s
    → s.slots_on_band + length (result ∷ results) ≤ slots_per_cycle
    → IsRun band
        (slot_start / slot_seconds)
        (length (result ∷ results))
        s
        (run_slots error slot_start (result ∷ results) s)
run_slots-IsRun error band slot_start result [] s l h =
    let (calls, e, heard, parks) = run_slot-IsObserved band slot_start result s l in
    let next = count_slot (park_on band s).1 in
    let (parked, quiet) = park_on-IsParked band s in
    let counted = count_slot-IsCounted band s (omega arith) in
    subst (IsRun band (slot_start / slot_seconds) 1 s)
      (sym (run_slots-one error slot_start result calls s next e))
      ((heard, tt), refl, counted, (λ q. (parks ∙ quiet q, tt)), tt)
run_slots-IsRun error band slot_start result (second ∷ results) s l h =
    let (calls, e, heard, parks) = run_slot-IsObserved band slot_start result s l in
    let next = count_slot (park_on band s).1 in
    let (parked, quiet) = park_on-IsParked band s in
    let counted = count_slot-IsCounted band s (omega arith) in
    let room : s.slots_on_band + 1 < slots_per_cycle = omega arith in
    let (later, last) = run_slots error (slot_start + slot_seconds) (second ∷ results) next in
    let (turns, long, counts, quiet_on, _) =
      run_slots-IsRun error band (slot_start + slot_seconds) second results next
        (Listens-next band s next room counted l) (omega (arith, counted)) in
    subst (IsRun band (slot_start / slot_seconds) (suc (suc (length results))) s)
      (sym (run_slots-cons error slot_start result (second ∷ results) calls s next e))
      (
        (heard, subst (λ slot. InTurn band slot later) (omega arith) turns),
        ap suc long,
        count_on (suc (length results)) s next last room counted counts,
        (λ q. (parks ∙ quiet q, quiet_on parked)),
        quiet_on parked,
      )
