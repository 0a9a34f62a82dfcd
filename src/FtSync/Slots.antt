-- ===== src/FtSync/Slots.antt =====
-- The slots of the tracker: `update` with its clean-up, and `snapshot`.
pub mod Kept
pub mod Invariant
mod Tests
use ham_spectrum_analysis.Prelude.{
  ℕ, zero, suc, ◌+◌, ◌-◌, ◌*◌, ◌/◌, ◌%◌, max, Bool, true, false, ◌&&◌, not, Option, none, some,
  List, [], ◌∷◌, ◌++◌, map, length, take, any, leb, ltb, ◌==◌, is_empty, if◌then◌else◌,
}
use ham_spectrum_analysis.FtSync.Tracks.{Config, Track, LockedTrack, Candidate, hear_candidates}

pub record Slot : Type 0 where
  pub slot_epoch : ℕ
  pub tracks : List Track

-- The slots in the order of their insertion; their keys are the decimal texts of their epochs.
pub record Tracker : Type 0 where
  pub config : Config
  pub slots : List Slot
  pub total_locked : ℕ
  pub last_lock_at : Option ℕ
  pub last_locked_tracks : List LockedTrack

pub init : (slot_seconds min_hits freq_tolerance_hz max_slots : ℕ) → Tracker
init slot_seconds min_hits freq_tolerance_hz max_slots = record {
  config = record {
    slot_seconds = max 5 slot_seconds;
    min_hits = max 1 min_hits;
    freq_tolerance_hz = max 1 freq_tolerance_hz;
    max_slots = max 2 max_slots;
  };
  slots = [];
  total_locked = 0;
  last_lock_at = none;
  last_locked_tracks = [];
}

slot_start_epoch : Config → (now : ℕ) → ℕ
slot_start_epoch config now = now / config.slot_seconds * config.slot_seconds

-- The tracks of a slot, none for a new one, and the slots with them, a new one at the end.
abbrev pub tracks_of : (slot_epoch : ℕ) → List Slot → List Track
tracks_of slot_epoch [] = []
tracks_of slot_epoch (slot ∷ slots) =
    let rest = tracks_of slot_epoch slots in
    if slot.slot_epoch == slot_epoch then slot.tracks else rest

abbrev pub put_tracks : (slot_epoch : ℕ) → List Track → List Slot → List Slot
put_tracks slot_epoch tracks [] = record { slot_epoch = slot_epoch; tracks = tracks } ∷ []
put_tracks slot_epoch tracks (slot ∷ slots) =
    let rest = put_tracks slot_epoch tracks slots in
    if slot.slot_epoch == slot_epoch then record slot { tracks = tracks } ∷ slots else slot ∷ rest

-- `sorted(..., reverse=True)` on the epochs.
abbrev pub insert_epoch : ℕ → List ℕ → List ℕ
insert_epoch e [] = e ∷ []
insert_epoch e (f ∷ es) = let rest = insert_epoch e es in if ltb f e then e ∷ f ∷ es else f ∷ rest

abbrev pub newest_first : List Slot → List ℕ
newest_first [] = []
newest_first (slot ∷ slots) = insert_epoch slot.slot_epoch (newest_first slots)

abbrev pub keep_slots : List ℕ → List Slot → List Slot
keep_slots keep [] = []
keep_slots keep (slot ∷ slots) =
    let rest = keep_slots keep slots in
    if any (λ e. e == slot.slot_epoch) keep then slot ∷ rest else rest

pub cleanup_slots : (max_slots : ℕ) → List Slot → List Slot
cleanup_slots max_slots slots =
    if leb (length slots) max_slots
    then slots
    else keep_slots (take max_slots (newest_first slots)) slots

-- What locks an update counts, at the time that it reads from the clock.
count_locks : (stamp : ℕ) → List LockedTrack → Tracker → Tracker
count_locks stamp [] tracker = tracker
count_locks stamp (l ∷ locked) tracker = record tracker {
  total_locked = tracker.total_locked + length (l ∷ locked);
  last_lock_at = some stamp;
  last_locked_tracks = l ∷ locked;
}

pub update_tracker : (stamp now : ℕ) → List Candidate → Tracker → List LockedTrack × Tracker
unfolding slot_start_epoch count_locks cleanup_slots
update_tracker stamp now candidates tracker =
    let slot_epoch = slot_start_epoch tracker.config now in
    let (tracks, locked) =
      hear_candidates tracker.config slot_epoch candidates (tracks_of slot_epoch tracker.slots) in
    let slots =
      cleanup_slots tracker.config.max_slots (put_tracks slot_epoch tracks tracker.slots) in
    (locked, record (count_locks stamp locked tracker) { slots = slots })

total_tracks : List Slot → ℕ
total_tracks [] = 0
total_tracks (slot ∷ slots) = length slot.tracks + total_tracks slots

-- The counts of `snapshot`; its other entries are attributes.
active_counts : Tracker → ℕ × ℕ
unfolding total_tracks
active_counts tracker = (length tracker.slots, total_tracks tracker.slots)

-- Updates in turn.
pub record Update : Type 0 where
  pub stamp : ℕ
  pub now : ℕ
  pub candidates : List Candidate

abbrev pub update_all : List Update → Tracker → Tracker
update_all [] tracker = tracker
update_all (u ∷ us) tracker = update_all us (update_tracker u.stamp u.now u.candidates tracker).1
