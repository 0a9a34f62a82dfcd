-- ===== src/Scan/Schedules/Tests.antt =====
-- Two windows around the clock, one of them over midnight.
use ham_spectrum_analysis.Prelude.{
  ℕ, ◌≡◌, ◌<◌, ◌↔◌, refl, inl, true, ◌&&◌, none, some, [], ◌∷◌, In, arith, if◌then◌else◌,
}
use ham_spectrum_analysis.Text.{codes, same, strip, text_leb}
use ham_spectrum_analysis.Scan.Windows.{
  is_hhmm, split_colon, to_int, hhmm_to_minutes, time_in_window, windows_overlap,
}
use ham_spectrum_analysis.Scan.Windows.Overlap.{day, windows_overlap_iff}
use ham_spectrum_analysis.Scan.Schedules.{
  created, Schedule, Store, get_preset_schedules, save_preset_schedule, create_preset_schedule,
  toggle_preset_schedule, delete_preset_schedule,
}
use ham_spectrum_analysis.Scan.Schedules.Disjoint.{
  creates, disables, apply_all, covers, IsApart, apply_all-IsApart,
}
use ham_spectrum_analysis.Scan.Schedules.Scheduler.{PresetScheduler, same_id, tick}
use ham_spectrum_analysis.Scan.Schedules.Scheduler.Switching.{succeeds, tick-active}

abbrev empty : Store
empty = record { presets = 1 ∷ 2 ∷ []; schedules = []; seq = 0 }

abbrev full : Store
full =
    apply_all
      (creates (some 1) (codes "23:00") (codes "09:00")
        ∷ creates (some 2) (codes " 09:00") (codes "23:00")
        ∷ creates (some 2) (codes "08:59") (codes "10:00")
        ∷ [])
      empty

program : Unit {0}
unfolding create_preset_schedule save_preset_schedule get_preset_schedules toggle_preset_schedule
    delete_preset_schedule hhmm_to_minutes is_hhmm split_colon to_int same strip text_leb
program = tt

abbrev night : Schedule
night = record {
  id = 1;
  preset_id = 1;
  start_hhmm = codes "23:00";
  end_hhmm = codes "09:00";
  enabled = true;
}

abbrev evening : Schedule
evening = record {
  id = 2;
  preset_id = 2;
  start_hhmm = codes "09:00";
  end_hhmm = codes "23:00";
  enabled = true;
}

-- The third request overlaps and is refused.
stored : full.schedules ≡ night ∷ evening ∷ []
unfolding program
stored = refl

full-IsApart : IsApart full.schedules
full-IsApart =
    apply_all-IsApart
      (creates (some 1) (codes "23:00") (codes "09:00")
        ∷ creates (some 2) (codes " 09:00") (codes "23:00")
        ∷ creates (some 2) (codes "08:59") (codes "10:00")
        ∷ [])
      empty tt

overlap_example :
    (windows_overlap 1380 540 539 600 ≡ true)
    ↔ ((t : ℕ) × (t < day) × (time_in_window t 1380 540 ≡ true) × (time_in_window t 539 600 ≡ true))
overlap_example =
    windows_overlap_iff 1380 540 539 600 (omega arith) (omega arith) (omega arith) (omega arith)

night_is_hhmm : is_hhmm (codes "23:00") ≡ true
unfolding program
night_is_hhmm = refl

night_listed : In night full.schedules
unfolding program
night_listed = inl refl

covers-night : covers night 30 ≡ true
unfolding program
covers-night = refl

abbrev idle : PresetScheduler
idle = record { running = true; active_preset_id = some 2 }

active_example :
    let (applied, after) = tick 30 full.schedules true (λ id. some true) idle in
    (applied ≡ (if same_id (some 1) (some 2) && true then none else some 1))
    × (after.active_preset_id ≡ (if succeeds (some true) then some 1 else some 2))
active_example =
    tick-active 30 full.schedules night true (λ id. some true) idle (omega arith) full-IsApart
      night_listed refl covers-night

-- A toggle that enables checks nothing: the window 01:00 to 02:00 was free while the first schedule
-- was disabled, and lies inside it once that is enabled again.
abbrev clash : Store
clash =
    (toggle_preset_schedule 1 true
      (apply_all (disables 1 ∷ creates (some 2) (codes "01:00") (codes "02:00") ∷ []) full)).1

abbrev early : Schedule
early = record {
  id = 3;
  preset_id = 2;
  start_hhmm = codes "01:00";
  end_hhmm = codes "02:00";
  enabled = true;
}

clashing : clash.schedules ≡ night ∷ evening ∷ early ∷ []
unfolding program
clashing = refl

clash_at_night : (covers night 90 ≡ true) × (covers early 90 ≡ true)
unfolding program
clash_at_night = (refl, refl)

accepted : (create_preset_schedule (some 1) (codes "23:00") (codes "09:00") empty).0 ≡ created
unfolding program
accepted = refl
