-- ===== src/Scan/Schedules/Scheduler.antt =====
-- `PresetScheduler` of backend/app/scan/preset_scheduler.py: its state, and one tick. The clock, the
-- running rotation and the outcome of the callback that applies a preset are arguments.
pub mod Switching
use ham_spectrum_analysis.Prelude.{
  ℕ, Bool, true, false, not, ◌&&◌, Option, none, some, List, [], ◌∷◌, ◌==◌, if◌then◌else◌,
}
use ham_spectrum_analysis.Scan.Windows.{time_in_window}
use ham_spectrum_analysis.Scan.Schedules.{Schedule, window}

pub record PresetScheduler : Type 0 where
  pub running : Bool
  pub active_preset_id : Option ℕ

-- `start` and `stop`: the task that `start` creates ticks until `stop` cancels it.
pub start : PresetScheduler → Bool × PresetScheduler
start s = if s.running then (false, s) else (true, record s { running = true })

pub stop : PresetScheduler → PresetScheduler
stop s = if s.running then record s { running = false } else s

-- A schedule whose times do not parse is passed over.
abbrev pub matches : ℕ → Option (ℕ × ℕ) → Bool
matches now_min none = false
matches now_min (some (s_min, e_min)) = time_in_window now_min s_min e_min

-- The first enabled schedule whose window the minute lies in.
abbrev pub target : ℕ → List Schedule → Option ℕ
target now_min [] = none
target now_min (s ∷ schedules) =
    let rest = target now_min schedules in
    if s.enabled && matches now_min (window s.start_hhmm s.end_hhmm) then some s.preset_id else rest

abbrev pub same_id : Option ℕ → Option ℕ → Bool
same_id none none = true
same_id (some a) (some b) = a == b
same_id _ _ = false

-- The preset that is applied, and the state that its outcome leaves: `apply` returns none if it
-- raises.
abbrev pub switch : (ℕ → Option Bool) → Option ℕ → PresetScheduler → Option ℕ × PresetScheduler
switch apply none s = (none, s)
switch apply (some preset_id) s = (
  some preset_id,
  elim (apply preset_id) [ some true ↦ record s { active_preset_id = some preset_id } | _ ↦ s ],
)

-- `_tick`: a preset that is active and whose rotation runs is left alone, one whose rotation died is
-- applied again.
pub tick :
    (now_min : ℕ)
    → List Schedule
    → (rotation_running : Bool) → (ℕ → Option Bool)
    → PresetScheduler
    → Option ℕ × PresetScheduler
tick now_min schedules rotation_running apply s =
    if same_id (target now_min schedules) s.active_preset_id && rotation_running
    then (none, s)
    else switch apply (target now_min schedules) s
