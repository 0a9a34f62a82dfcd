-- ===== src/Scan/Rotation.antt =====
-- backend/app/scan/rotation.py: the configuration of a rotation, and `ScanRotation`. One round of
-- its loop is `round_`; a run is a number of rounds.
pub mod Config
pub mod Pass
pub mod Cycle
mod Tests
use ham_spectrum_analysis.Prelude.{
  ℕ, zero, suc, ◌+◌, ◌%◌, max, Bool, true, false, not, ◌||◌, ◌&&◌, Option, none, some, List, [],
  ◌∷◌, length, get_elem?, is_empty, ltb, ◌==◌, if◌then◌else◌,
}
use ham_spectrum_analysis.Text.{Text, codes, same, strip, lower}

abbrev pub default_min_dwell : ℕ
default_min_dwell = 10

-- `_MIN_DWELL_S.get(mode, _DEFAULT_MIN_DWELL_S)`
pub min_dwell : Text → ℕ
min_dwell mode =
    if same mode (codes "ft8")
    then 15
    else if same mode (codes "ft4")
    then 8
    else if same mode (codes "wspr")
    then 120
    else if same mode (codes "cw")
    then 10
    else if same mode (codes "ssb")
    then 15
    else default_min_dwell

pub clamp_dwell : Text → ℕ → ℕ
clamp_dwell mode requested = max requested (min_dwell mode)

pub record RotationSlot : Type 0 where
  pub band : Text
  pub mode : Text
  pub dwell_s : ℕ

pub record RotationConfig : Type 0 where
  pub slots : List RotationSlot
  pub loop : Bool

-- One slot of the payload, and the payload, with a missing value as `none`. A `slots` or a `modes`
-- that is no list is refused like an empty one, and is an empty one here.
pub record SlotRequest : Type 0 where
  pub band : Text
  pub mode : Text
  pub dwell_s : Option ℕ

pub record Request : Type 0 where
  pub rotation_mode : Option Text
  pub dwell_s : Option ℕ
  pub loop : Option Bool
  pub band : Text
  pub modes : List Text
  pub slots : List SlotRequest

-- `int(data.get("dwell_s", 60) or 60)`: a missing one and 0 give the other.
abbrev pub dwell_or : ℕ → Option ℕ → ℕ
dwell_or other none = other
dwell_or other (some zero) = other
dwell_or other (some (suc n)) = suc n

pub mode_slots : Text → ℕ → List Text → List RotationSlot
mode_slots band dwell [] = []
mode_slots band dwell (m ∷ modes) =
    let mode = lower (strip m) in
    record { band = band; mode = mode; dwell_s = clamp_dwell mode dwell }
    ∷ mode_slots band dwell modes

-- `none` is the ValueError of a slot without a band or a mode.
pub band_slots : ℕ → List SlotRequest → Option (List RotationSlot)
band_slots default_dwell [] = some []
band_slots default_dwell (s ∷ requests) =
    let rest = band_slots default_dwell requests in
    let band = strip s.band in
    let mode = lower (strip s.mode) in
    if is_empty band || is_empty mode then none else elim rest [
      | none ↦ none
      | some slots ↦ some (
          record {
            band = band;
            mode = mode;
            dwell_s = clamp_dwell mode (dwell_or default_dwell s.dwell_s);
          }
          ∷ slots)
    ]

pub requested_slots : Request → Option (List RotationSlot)
unfolding mode_slots band_slots
requested_slots payload =
    let rotation_mode : Text = elim payload.rotation_mode [
      | none ↦ codes "bands"
      | some m ↦ lower (strip m)
    ] in
    let default_dwell = dwell_or 60 payload.dwell_s in
    let band = strip payload.band in
    if same rotation_mode (codes "modes")
    then if is_empty band || is_empty payload.modes
      then none
      else some (mode_slots band default_dwell payload.modes)
    else if is_empty payload.slots
    then none
    else band_slots default_dwell payload.slots

-- `RotationConfig.from_dict`; `none` is a ValueError.
pub from_dict : Request → Option RotationConfig
from_dict payload = elim (requested_slots payload) [
  | none ↦ none
  | some slots ↦
      if ltb (length slots) 2
      then none
      else some (record { slots = slots; loop = elim payload.loop [ none ↦ true | some b ↦ b ] })
]

pub record ScanRotation : Type 0 where
  pub config : RotationConfig
  pub current_index : ℕ
  pub running : Bool

current_slot : ScanRotation → Option RotationSlot
current_slot r = get_elem? r.config.slots r.current_index

-- The index behind the current one; `% 0` is not reached, since a rotation without slots has none.
abbrev pub next_index : ScanRotation → ℕ
next_index r = (r.current_index + 1) % length r.config.slots

next_slot : ScanRotation → Option RotationSlot
next_slot r = if is_empty r.config.slots then none else get_elem? r.config.slots (next_index r)

abbrev pub open_rotation : RotationConfig → ScanRotation
open_rotation config = record { config = config; current_index = 0; running = false }

-- The task that `start` creates is the run that follows.
pub start : ScanRotation → Bool × ScanRotation
start r =
    if r.running || is_empty r.config.slots
    then (false, r)
    else (true, record r { current_index = 0; running = true })

pub stop : ScanRotation → Bool × ScanRotation
stop r = if r.running then (true, record r { running = false }) else (false, r)

-- One round of `_rotation_loop`: the slot that is switched to, and the state after its dwell. An
-- outcome of the switch callback, an exception included, is logged and changes nothing. An index
-- out of range raises, which ends the loop.
pub round_ : ScanRotation → Option RotationSlot × ScanRotation
round_ r = elim (get_elem? r.config.slots r.current_index) [
  | none ↦ (none, record r { running = false })
  | some slot ↦
      if not r.config.loop && next_index r == 0
      then (some slot, record r { current_index = next_index r; running = false })
      else (some slot, record r { current_index = next_index r })
]

abbrev pub keep : Option RotationSlot → List RotationSlot → List RotationSlot
keep none visited = visited
keep (some slot) visited = slot ∷ visited

-- At most so many rounds: the slots that are visited, and the state at the end.
pub run : ℕ → ScanRotation → List RotationSlot × ScanRotation
unfolding round_
run zero r = ([], r)
run (suc rounds) r =
    let (slot, r') = round_ r in
    let (visited, last) = run rounds r' in if r.running then (keep slot visited, last) else ([], r)
