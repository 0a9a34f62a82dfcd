-- ===== src/FtSync/Slots/Invariant.antt =====
-- What holds of the tracker after any updates.
use ham_spectrum_analysis.Prelude.{
  ℕ, ◌+◌, ◌≡◌, ◌≤◌, ◌⊎◌, inl, inr, refl, List, [], ◌∷◌, length, In, Distinct, All, leb, ==_iff,
  take, arith, subst, sym, Bool-cases,
}
use ham_spectrum_analysis.FtSync.Tracks.{Config, Track, LockedTrack, hear_candidates}
use ham_spectrum_analysis.FtSync.Tracks.Locks.{IsTrack, locks, hear_candidates-IsCounted}
use ham_spectrum_analysis.FtSync.Slots.{
  Slot, Tracker, Update, init, tracks_of, put_tracks, keep_slots, cleanup_slots, newest_first,
  count_locks, slot_start_epoch, update_tracker, update_all,
}
use ham_spectrum_analysis.FtSync.Slots.Kept.{epochs, cleanup_slots-IsNewest}

abbrev pub IsSlot : Config → Slot → Type 0
IsSlot config slot = All (IsTrack config) slot.tracks

abbrev pub held_locks : List Slot → ℕ
held_locks [] = 0
held_locks (slot ∷ slots) = locks slot.tracks + held_locks slots

module _ (config : Config) (slot_epoch : ℕ) where
  tracks_of-IsSlot :
      (slots : List Slot)
      → All (IsSlot config) slots
      → All (IsTrack config) (tracks_of slot_epoch slots)
  tracks_of-IsSlot [] h = tt
  tracks_of-IsSlot (slot ∷ slots) h = ground (arith, h, tracks_of-IsSlot slots h.1)

  put_tracks-IsSlot :
      (tracks : List Track) (slots : List Slot)
      → All (IsTrack config) tracks
      → All (IsSlot config) slots
      → All (IsSlot config) (put_tracks slot_epoch tracks slots)
  put_tracks-IsSlot tracks [] ht h = (ht, tt)
  put_tracks-IsSlot tracks (slot ∷ slots) ht h =
      ground (arith, h, ht, put_tracks-IsSlot tracks slots ht h.1)

  In-put_tracks :
      (x : ℕ) (tracks : List Track) (slots : List Slot)
      → In x (epochs (put_tracks slot_epoch tracks slots))
      → (x ≡ slot_epoch) ⊎ In x (epochs slots)
  In-put_tracks x tracks [] m = ground (arith, m)
  In-put_tracks x tracks (slot ∷ slots) m = ground (arith, m, In-put_tracks x tracks slots)

  put_tracks-Distinct :
      (tracks : List Track) (slots : List Slot)
      → Distinct (epochs slots)
      → Distinct (epochs (put_tracks slot_epoch tracks slots))
  put_tracks-Distinct tracks [] d = (λ m. m, tt)
  put_tracks-Distinct tracks (slot ∷ slots) d = ground (
    arith,
    d,
    ==_iff slot.slot_epoch slot_epoch,
    In-put_tracks slot.slot_epoch tracks slots,
    put_tracks-Distinct tracks slots d.1,
  )

  held_locks-put_tracks :
      (tracks : List Track) (slots : List Slot)
      → held_locks (put_tracks slot_epoch tracks slots) + locks (tracks_of slot_epoch slots)
        ≡ held_locks slots + locks tracks
  held_locks-put_tracks tracks [] = omega arith
  held_locks-put_tracks tracks (slot ∷ slots) = ground (arith, held_locks-put_tracks tracks slots)

cleanup_slots-IsSlot :
    (config : Config) (n : ℕ) (slots : List Slot)
    → All (IsSlot config) slots
    → All (IsSlot config) (cleanup_slots n slots)
unfolding cleanup_slots
cleanup_slots-IsSlot config n slots h = elim (Bool-cases (leb (length slots) n)) [
  | inl e ↦ rw e h
  | inr e ↦ rw e (kept (take n (newest_first slots)) slots h)
]
  where
    kept :
        (keep : List ℕ) (slots : List Slot)
        → All (IsSlot config) slots
        → All (IsSlot config) (keep_slots keep slots)
    kept keep [] h = tt
    kept keep (slot ∷ slots) h = ground (arith, h, kept keep slots h.1)

held_locks-cleanup_slots :
    (n : ℕ) (slots : List Slot) → held_locks (cleanup_slots n slots) ≤ held_locks slots
unfolding cleanup_slots
held_locks-cleanup_slots n slots = ground (arith, fewer (take n (newest_first slots)) slots)
  where
    fewer :
        (keep : List ℕ) (slots : List Slot) → held_locks (keep_slots keep slots) ≤ held_locks slots
    fewer keep [] = omega arith
    fewer keep (slot ∷ slots) = ground (arith, fewer keep slots)

-- The limits of the configuration, one slot per epoch and no more than there is room for, every
-- track locked exactly where its hits are enough, and every locked track counted.
pub record IsTracker (tracker : Tracker) : Type 0 where
  pub hits_needed : 1 ≤ tracker.config.min_hits
  pub one_per_epoch : Distinct (epochs tracker.slots)
  pub room : length tracker.slots ≤ tracker.config.max_slots
  pub slots : All (IsSlot tracker.config) tracker.slots
  pub counted : held_locks tracker.slots ≤ tracker.total_locked

init-IsTracker : (s h f m : ℕ) → IsTracker (init s h f m)
unfolding init
init-IsTracker s h f m = record {
  hits_needed = omega arith;
  one_per_epoch = tt;
  room = omega arith;
  slots = tt;
  counted = omega arith;
}

count_locks-total :
    (stamp : ℕ) (locked : List LockedTrack) (tracker : Tracker)
    → ((count_locks stamp locked tracker).total_locked ≡ tracker.total_locked + length locked)
      × ((count_locks stamp locked tracker).config ≡ tracker.config)
unfolding count_locks
count_locks-total stamp [] tracker = (omega arith, refl)
count_locks-total stamp (l ∷ locked) tracker = (refl, refl)

update_tracker-IsTracker :
    (u : Update) (tracker : Tracker)
    → IsTracker tracker
    → IsTracker (update_tracker u.stamp u.now u.candidates tracker).1
unfolding update_tracker
update_tracker-IsTracker u tracker h =
    let config = tracker.config in
    let epoch = slot_start_epoch config u.now in
    let before = tracks_of epoch tracker.slots in
    let (tracks, locked) = hear_candidates config epoch u.candidates before in
    let (kept, grown, _) =
      hear_candidates-IsCounted config epoch u.candidates before h.hits_needed
        (tracks_of-IsSlot config epoch tracker.slots h.slots) in
    let (total, same_config) = count_locks-total u.stamp locked tracker in
    let put = put_tracks epoch tracks tracker.slots in
    let (held, unique, _, _) =
      cleanup_slots-IsNewest config.max_slots put
        (put_tracks-Distinct config epoch tracks tracker.slots h.one_per_epoch) in
    let slots =
      cleanup_slots-IsSlot config config.max_slots put
        (put_tracks-IsSlot config epoch tracks tracker.slots kept h.slots) in
    record {
      hits_needed = subst (λ c. 1 ≤ c.min_hits) (sym same_config) h.hits_needed;
      one_per_epoch = unique;
      room =
          subst (λ c. length (cleanup_slots config.max_slots put) ≤ c.max_slots) (sym same_config)
            (omega (arith, held));
      slots =
          subst (λ c. All (IsSlot c) (cleanup_slots config.max_slots put)) (sym same_config) slots;
      counted = omega (
        arith,
        total,
        grown,
        h.counted,
        held_locks-put_tracks config epoch tracks tracker.slots,
        held_locks-cleanup_slots config.max_slots put,
      );
    }

-- Whatever updates a new tracker has seen, in any order of time: it has one slot per epoch and no
-- more slots than there is room for, the tracks in them are locked exactly where their hits are
-- enough, and `total_locked` counts each of them.
pub update_all-IsTracker :
    (slot_seconds min_hits freq_tolerance_hz max_slots : ℕ) (us : List Update)
    → IsTracker (update_all us (init slot_seconds min_hits freq_tolerance_hz max_slots))
update_all-IsTracker s h f m us = go us (init s h f m) (init-IsTracker s h f m)
  where
    go :
        (us : List Update) (tracker : Tracker)
        → IsTracker tracker
        → IsTracker (update_all us tracker)
    go [] tracker t = t
    go (u ∷ us) tracker t =
        go us (update_tracker u.stamp u.now u.candidates tracker).1
          (update_tracker-IsTracker u tracker t)
