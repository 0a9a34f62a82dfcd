-- ===== src/FtSync/Tracks/Locks.antt =====
-- A track is locked once, by the hit that makes its hits enough.
use ham_spectrum_analysis.Prelude.{
  ℕ, ◌+◌, ◌≡◌, ◌≤◌, Bool, true, false, List, [], ◌∷◌, ◌++◌, length, All, All-append, length-append,
  leb, ◌==◌, if◌then◌else◌, arith,
}
use ham_spectrum_analysis.Text.{Text}
use ham_spectrum_analysis.FtSync.Tracks.{
  Config, Track, LockedTrack, Candidate, heard_at, not_a_dict, hit, new_track, lock, lock_entry,
  is_track, touch, hear_candidates, mode_text,
}

-- Hits enough, and no track is kept without a hit.
abbrev pub IsTrack : Config → Track → Type 0
IsTrack config track = track.locked ≡ leb config.min_hits track.hits

abbrev pub locks : List Track → ℕ
locks [] = 0
locks (t ∷ tracks) = if t.locked then 1 + locks tracks else locks tracks

abbrev pub IsEntry : Config → (slot_epoch : ℕ) → LockedTrack → Type 0
IsEntry config slot_epoch l = (l.slot_epoch ≡ slot_epoch) × (l.hits ≡ config.min_hits)

module _ (config : Config) (slot_epoch : ℕ) where
  -- Tracks behind some hits, and the entries of what these locked.
  abbrev pub IsCounted : List Track → List Track × List LockedTrack → Type 0
  IsCounted before (tracks, locked) =
      All (IsTrack config) tracks
      × (locks tracks ≡ locks before + length locked)
      × All (IsEntry config slot_epoch) locked

  lock-IsCounted :
      (frequency_hz : ℕ) (mode : Text) (confidence snr_db : ℕ) (t : Track)
      → IsTrack config t
      → let (track, locked) = lock config slot_epoch (hit frequency_hz mode confidence snr_db t) in
        IsCounted (t ∷ []) (track ∷ [], locked)
  unfolding lock lock_entry hit
  lock-IsCounted frequency_hz mode confidence snr_db t h = ground (arith, h)

  locks-cons :
      (t : Track) (tracks : List Track) → locks (t ∷ tracks) ≡ locks (t ∷ []) + locks tracks
  locks-cons t tracks = ground arith

  pub new_track-IsCounted :
      (frequency_hz : ℕ) (mode : Text)
      → 1 ≤ config.min_hits
      → IsTrack config (new_track frequency_hz mode)
        × (locks (new_track frequency_hz mode ∷ []) ≡ 0)
  unfolding new_track
  new_track-IsCounted frequency_hz mode h = ground (arith, h)

  either-IsCounted :
      (b : Bool) (before : List Track) (x y : List Track × List LockedTrack)
      → IsCounted before x
      → IsCounted before y
      → IsCounted before (if b then x else y)
  either-IsCounted true before x y hx hy = hx
  either-IsCounted false before x y hx hy = hy

  pub touch-IsCounted :
      (frequency_hz : ℕ) (mode : Text) (confidence snr_db : ℕ) (tracks : List Track)
      → 1 ≤ config.min_hits
      → All (IsTrack config) tracks
      → IsCounted tracks (touch config slot_epoch frequency_hz mode confidence snr_db tracks)
  unfolding touch
  touch-IsCounted frequency_hz mode confidence snr_db [] hm h =
      let (fresh, none_locked) = new_track-IsCounted frequency_hz mode hm in
      let (kept, counted, entered) =
        lock-IsCounted frequency_hz mode confidence snr_db (new_track frequency_hz mode) fresh in
      (kept, omega (arith, counted, none_locked), entered)
  touch-IsCounted frequency_hz mode confidence snr_db (t ∷ tracks) hm h =
      let (kept, counted, entered) = lock-IsCounted frequency_hz mode confidence snr_db t h.0 in
      let (track, locked) = lock config slot_epoch (hit frequency_hz mode confidence snr_db t) in
      let (rest, later) = touch config slot_epoch frequency_hz mode confidence snr_db tracks in
      let (kept_rest, counted_rest, entered_rest) =
        touch-IsCounted frequency_hz mode confidence snr_db tracks hm h.1 in
      either-IsCounted (is_track config frequency_hz mode t) (t ∷ tracks) (track ∷ tracks, locked)
        (t ∷ rest, later)
        (
          (kept.0, h.1),
          omega (arith, counted, locks-cons t tracks, locks-cons track tracks),
          entered,
        )
        (
          (h.0, kept_rest),
          omega (arith, counted_rest, locks-cons t tracks, locks-cons t rest),
          entered_rest,
        )

  pub hear_candidates-IsCounted :
      (candidates : List Candidate) (tracks : List Track)
      → 1 ≤ config.min_hits
      → All (IsTrack config) tracks
      → IsCounted tracks (hear_candidates config slot_epoch candidates tracks)
  unfolding hear_candidates
  hear_candidates-IsCounted [] tracks hm h = (h, omega arith, tt)
  hear_candidates-IsCounted (not_a_dict ∷ candidates) tracks hm h =
      hear_candidates-IsCounted candidates tracks hm h
  hear_candidates-IsCounted (heard_at frequency_hz mode confidence snr_db ∷ candidates) tracks hm
        h =
      let (kept, counted, entered) =
        touch-IsCounted frequency_hz (mode_text mode) confidence snr_db tracks hm h in
      let (touched, locked) =
        touch config slot_epoch frequency_hz (mode_text mode) confidence snr_db tracks in
      let (kept_on, counted_on, entered_on) =
        hear_candidates-IsCounted candidates touched hm kept in
      let (heard, more) = hear_candidates config slot_epoch candidates touched in
      either-IsCounted (frequency_hz == 0) tracks
        (hear_candidates config slot_epoch candidates tracks) (heard, locked ++ more)
        (hear_candidates-IsCounted candidates tracks hm h)
        (
          kept_on,
          omega (arith, counted, counted_on, length-append locked more),
          All-append (IsEntry config slot_epoch) locked more entered entered_on,
        )
