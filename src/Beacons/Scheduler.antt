-- ===== src/Beacons/Scheduler.antt =====
-- `BeaconScheduler` of backend/app/beacons/scheduler.py: which beacon is listened for, slot by slot.
-- A time is a number of whole seconds, or of milliseconds where the source keeps the fraction. What
-- the detector finds in a slot is an argument, and so is the text of an exception; the callbacks are
-- what they are called with. Levels, samples and the log are left out.
pub mod Cycle
pub mod Tuning
pub mod FullCycle
pub mod FullPass
mod Tests
use ham_spectrum_analysis.Prelude.{
  ℕ, ◌+◌, ◌-◌, ◌*◌, ◌/◌, ◌%◌, min, Bool, true, false, ◌&&◌, not, Option, none, some, List, [], ◌∷◌,
  length, get_elem?, leb, ltb, ◌==◌, is_empty, map, if◌then◌else◌,
}
use ham_spectrum_analysis.Text.{Text}
use ham_spectrum_analysis.Beacons.Catalog.{
  Beacon, Status, off_air, BeaconBand, bands, slot_seconds, slots_per_cycle, beacon_at,
  current_slot_index, next_slot_start,
}

-- `parks` says whether there is a callback that parks the receiver.
pub record Scheduler : Type 0 where
  pub bands : List BeaconBand
  pub parks : Bool
  pub running : Bool
  pub band_index : ℕ
  pub slots_on_band : ℕ
  pub total_slots : ℕ
  pub total_observations : ℕ
  pub started_at : Option ℕ
  pub stopped_at : Option ℕ
  pub last_error : Option Text
  pub parked_freq_hz : Option ℕ

-- What the detector says of a slot that has samples enough. A drift is early or late, and how much.
pub record Detection : Type 0 where
  pub detected : Bool
  pub id_confirmed : Bool
  pub id_confidence : ℕ
  pub drift_ms : Option (Bool × ℕ)
  pub dash_levels_detected : ℕ

pub record Observation : Type 0 where
  pub beacon_callsign : Text
  pub beacon_index : ℕ
  pub beacon_location : Text
  pub beacon_status : Status
  pub band_name : Text
  pub freq_hz : ℕ
  pub slot_index : ℕ
  pub slot_start : ℕ
  pub detection : Detection

-- The calls of one slot: the start, the frequency to park on, and the observation.
pub record SlotCalls : Type 0 where
  pub slot_start_call : Text × ℕ × ℕ × ℕ
  pub park_call : Option ℕ
  pub observation : Observation

pub init : (band_list : List BeaconBand) → (parks : Bool) → Scheduler
init band_list parks = record {
  bands = if is_empty band_list then bands else band_list;
  parks = parks;
  running = false;
  band_index = 0;
  slots_on_band = 0;
  total_slots = 0;
  total_observations = 0;
  started_at = none;
  stopped_at = none;
  last_error = none;
  parked_freq_hz = none;
}

start : (now : ℕ) → Scheduler → Bool × Scheduler
start now s =
    if s.running
    then (false, s)
    else (true, record s { running = true; started_at = some now; stopped_at = none })

-- The task is cancelled and the receiver is no longer parked.
stop : (now : ℕ) → Scheduler → Bool × Scheduler
stop now s =
    if s.running
    then (true, record s { running = false; stopped_at = some now; parked_freq_hz = none })
    else (false, s)

-- A signal without a single dash, of a beacon that is off the air, is no detection.
apply_catalog_status_rules : Status → Detection → Detection
apply_catalog_status_rules off_air d =
    if d.detected && d.dash_levels_detected == 0
    then record d { detected = false; id_confirmed = false; drift_ms = none }
    else d
apply_catalog_status_rules _ d = d

-- The entries of an observation for a slot without samples enough.
abbrev no_detection : Detection
no_detection = record {
  detected = false;
  id_confirmed = false;
  id_confidence = 0;
  drift_ms = none;
  dash_levels_detected = 0;
}

detected_as : Status → Option Detection → Detection
unfolding apply_catalog_status_rules
detected_as status none = no_detection
detected_as status (some d) = apply_catalog_status_rules status d

is_parked_on : ℕ → Option ℕ → Bool
is_parked_on freq_hz none = false
is_parked_on freq_hz (some parked) = parked == freq_hz

pub observe : BeaconBand → Beacon → (slot_index slot_start : ℕ) → Option Detection → Observation
unfolding detected_as
observe band beacon slot_index slot_start result = record {
  beacon_callsign = beacon.callsign;
  beacon_index = beacon.index;
  beacon_location = beacon.location;
  beacon_status = beacon.status;
  band_name = band.name;
  freq_hz = band.freq_hz;
  slot_index = slot_index;
  slot_start = slot_start;
  detection = detected_as beacon.status result;
}

-- The receiver is parked where the frequency changes.
pub park_on : BeaconBand → Scheduler → Option ℕ × Scheduler
unfolding is_parked_on
park_on band s =
    if s.parks && not (is_parked_on band.freq_hz s.parked_freq_hz)
    then (some band.freq_hz, record s { parked_freq_hz = some band.freq_hz })
    else (none, s)

-- The counts behind a slot: after a cycle on a band the next band is taken.
pub count_slot : Scheduler → Scheduler
count_slot s =
    let done = leb slots_per_cycle (s.slots_on_band + 1) in
    record s {
      total_slots = s.total_slots + 1;
      total_observations = s.total_observations + 1;
      slots_on_band = if done then 0 else s.slots_on_band + 1;
      band_index = if done then (s.band_index + 1) % length s.bands else s.band_index;
    }

on_beacon :
    BeaconBand
    → (slot_index slot_start : ℕ) → Option Detection
    → Scheduler
    → Option Beacon
    → Option (SlotCalls × Scheduler)
unfolding observe park_on count_slot
on_beacon band slot_index slot_start result s none = none
on_beacon band slot_index slot_start result s (some beacon) =
    let (park_call, parked) = park_on band s in
    some (
      record {
        slot_start_call = (beacon.callsign, band.freq_hz, slot_index, slot_start);
        park_call = park_call;
        observation = observe band beacon slot_index slot_start result;
      },
      count_slot parked,
    )

on_band :
    (slot_start : ℕ)
    → Option Detection
    → Scheduler
    → Option BeaconBand
    → Option (SlotCalls × Scheduler)
unfolding on_beacon
on_band slot_start result s none = none
on_band slot_start result s (some band) =
    let slot_index = current_slot_index slot_start in
    on_beacon band slot_index slot_start result s (beacon_at slot_index band.index)

-- One round of the loop; `none` is an IndexError.
pub run_slot : (slot_start : ℕ) → Option Detection → Scheduler → Option (SlotCalls × Scheduler)
unfolding on_band
run_slot slot_start result s = on_band slot_start result s (get_elem? s.bands s.band_index)

-- The wait for the first slot, at least 0.2 seconds: the slot and the milliseconds until it.
pub align : (now_ms : ℕ) → ℕ × ℕ
align now_ms =
    let slot_start = next_slot_start (now_ms / 1000) in
    let wait_ms = slot_start * 1000 - now_ms in
    let later = slot_start + slot_seconds in
    if ltb wait_ms 200 then (later, later * 1000 - now_ms) else (slot_start, wait_ms)

-- The sleep between two slots: none if the next one has begun.
pub sleep_ms : (slot_start now_ms : ℕ) → ℕ
sleep_ms slot_start now_ms = min (slot_seconds * 1000) ((slot_start + slot_seconds) * 1000 - now_ms)

-- The loop over the slots of which the results are given. An exception ends it: `_run` keeps its
-- text, and `running` stays as it was.
pub run_slots :
    (error : Text)
    → (slot_start : ℕ) → List (Option Detection)
    → Scheduler
    → List SlotCalls × Scheduler
unfolding run_slot
run_slots error slot_start [] s = ([], s)
run_slots error slot_start (result ∷ results) s = elim (run_slot slot_start result s) [
  | none ↦ ([], record s { last_error = some error })
  | some (calls, next) ↦
      let (later, last) = run_slots error (slot_start + slot_seconds) results next in
      (calls ∷ later, last)
]

-- The band that `snapshot` shows; its other entries are attributes.
current_band : Scheduler → Option (Text × ℕ)
current_band s = elim (get_elem? s.bands s.band_index) [
  | none ↦ none
  | some band ↦ some (band.name, band.freq_hz)
]
