-- ===== src/FtSync/Tracks/Reports.antt =====
-- What each entry of the locked tracks reports.
use ham_spectrum_analysis.Prelude.{
  ℕ, zero, suc, ◌+◌, ◌≡◌, ◌≤◌, Bool, true, false, Option, List, [], ◌∷◌, ◌++◌, length, All,
  All-append, In, inl, inr, refl, sym, ap, subst, ◌==◌, if◌then◌else◌, arith,
}
use ham_spectrum_analysis.Text.{Text}
use ham_spectrum_analysis.FtSync.Tracks.{
  Config, Track, LockedTrack, Candidate, heard_at, not_a_dict, hit, new_track, lock, lock_entry,
  is_track, touch, hear_candidates, mode_text,
}
use ham_spectrum_analysis.FtSync.Tracks.Locks.{
  IsTrack, locks, new_track-IsCounted, touch-IsCounted, hear_candidates-IsCounted,
}

module _ (config : Config) (slot_epoch : ℕ) where
  -- The entry has what a track has that is locked and has just hits enough.
  abbrev pub IsSnapshot : Track → LockedTrack → Type 0
  IsSnapshot t l =
      (t.locked ≡ true)
      × (t.hits ≡ config.min_hits)
      × (l.slot_epoch ≡ slot_epoch)
      × (l.mode ≡ t.mode)
      × (l.frequency_hz ≡ t.frequency_hz)
      × (l.hits ≡ t.hits)
      × (l.best_confidence ≡ t.best_confidence)
      × (l.best_snr_db ≡ t.best_snr_db)

  -- The entry reports a track as it stands behind the first so many of the candidates.
  abbrev pub IsReport : List Candidate → List Track → LockedTrack → Type 0
  IsReport candidates tracks l =
      (first rest : List Candidate) × (candidates ≡ first ++ rest)
      × (t : Track) × In t (hear_candidates config slot_epoch first tracks).0
      × IsSnapshot t l

  abbrev IsTouched : List Track → LockedTrack → Type 0
  IsTouched touched l = (t : Track) × In t touched × IsSnapshot t l

  lock-IsSnapshot :
      (frequency_hz : ℕ) (mode : Text) (confidence snr_db : ℕ) (t : Track)
      → IsTrack config t
      → let (track, locked) = lock config slot_epoch (hit frequency_hz mode confidence snr_db t) in
        All (IsSnapshot track) locked
  unfolding lock lock_entry hit
  lock-IsSnapshot frequency_hz mode confidence snr_db t h = ground (arith, h)

  IsTouched-cons :
      (t : Track) (tracks : List Track) (locked : List LockedTrack)
      → All (IsTouched tracks) locked
      → All (IsTouched (t ∷ tracks)) locked
  IsTouched-cons t tracks [] h = tt
  IsTouched-cons t tracks (l ∷ locked) ((track, m, stands), h) =
      ((track, inr m, stands), IsTouched-cons t tracks locked h)

  IsTouched-here :
      (t : Track) (tracks : List Track) (locked : List LockedTrack)
      → All (IsSnapshot t) locked
      → All (IsTouched (t ∷ tracks)) locked
  IsTouched-here t tracks [] h = tt
  IsTouched-here t tracks (l ∷ locked) (stands, h) =
      ((t, inl refl, stands), IsTouched-here t tracks locked h)

  either-IsTouched :
      (b : Bool) (x y : List Track × List LockedTrack)
      → All (IsTouched x.0) x.1
      → All (IsTouched y.0) y.1
      → All (IsTouched (if b then x else y).0) (if b then x else y).1
  either-IsTouched true x y hx hy = hx
  either-IsTouched false x y hx hy = hy

  touch-IsTouched :
      (frequency_hz : ℕ) (mode : Text) (confidence snr_db : ℕ) (tracks : List Track)
      → 1 ≤ config.min_hits
      → All (IsTrack config) tracks
      → let (touched, locked) =
          touch config slot_epoch frequency_hz mode confidence snr_db tracks in
        All (IsTouched touched) locked
  unfolding touch
  touch-IsTouched frequency_hz mode confidence snr_db [] hm h =
      let fresh = new_track frequency_hz mode in
      let (track, locked) =
        lock config slot_epoch (hit frequency_hz mode confidence snr_db fresh) in
      IsTouched-here track [] locked (
        lock-IsSnapshot frequency_hz mode confidence snr_db fresh
          (new_track-IsCounted config slot_epoch frequency_hz mode hm).0)
  touch-IsTouched frequency_hz mode confidence snr_db (t ∷ tracks) hm h =
      let (track, locked) = lock config slot_epoch (hit frequency_hz mode confidence snr_db t) in
      let (rest, later) = touch config slot_epoch frequency_hz mode confidence snr_db tracks in
      either-IsTouched (is_track config frequency_hz mode t) (track ∷ tracks, locked)
        (t ∷ rest, later)
        (IsTouched-here track tracks locked
          (lock-IsSnapshot frequency_hz mode confidence snr_db t h.0))
        (IsTouched-cons t rest later
          (touch-IsTouched frequency_hz mode confidence snr_db tracks hm h.1))

  -- One more candidate in front.
  IsReport-cons :
      (c : Candidate) (candidates : List Candidate) (before touched : List Track)
      (locked : List LockedTrack)
      → ((first : List Candidate)
          → (hear_candidates config slot_epoch (c ∷ first) before).0
            ≡ (hear_candidates config slot_epoch first touched).0)
      → All (IsReport candidates touched) locked
      → All (IsReport (c ∷ candidates) before) locked
  IsReport-cons c candidates before touched [] same_tracks h = tt
  IsReport-cons c candidates before touched (l ∷ locked) same_tracks
        ((first, rest, split, t, m, stands), h) =
      (
        (
          c ∷ first,
          rest,
          ap (λ cs. c ∷ cs) split,
          t,
          subst (In t) (sym (same_tracks first)) m,
          stands,
        ),
        IsReport-cons c candidates before touched locked same_tracks h,
      )

  IsReport-first :
      (c : Candidate) (candidates : List Candidate) (before touched : List Track)
      (locked : List LockedTrack)
      → (hear_candidates config slot_epoch (c ∷ []) before).0 ≡ touched
      → All (IsTouched touched) locked
      → All (IsReport (c ∷ candidates) before) locked
  IsReport-first c candidates before touched [] same_tracks h = tt
  IsReport-first c candidates before touched (l ∷ locked) same_tracks ((t, m, stands), h) = (
    (c ∷ [], candidates, refl, t, subst (In t) (sym same_tracks) m, stands),
    IsReport-first c candidates before touched locked same_tracks h,
  )

  hear_candidates-cons :
      (f : ℕ) (mode : Option Text) (confidence snr_db : ℕ) (candidates : List Candidate)
      (tracks : List Track)
      → let (touched, locked) =
          touch config slot_epoch (suc f) (mode_text mode) confidence snr_db tracks in
        let (heard, more) = hear_candidates config slot_epoch candidates touched in
        hear_candidates config slot_epoch
          (heard_at (suc f) mode confidence snr_db ∷ candidates)
          tracks
        ≡ (heard, locked ++ more)
  unfolding hear_candidates
  hear_candidates-cons f mode confidence snr_db candidates tracks =
      let (touched, locked) =
        touch config slot_epoch (suc f) (mode_text mode) confidence snr_db tracks in
      let (heard, more) = hear_candidates config slot_epoch candidates touched in
      let present : (suc f == 0) ≡ false = ground arith in
      ap
        (λ b.
          if b
          then hear_candidates config slot_epoch candidates tracks
          else (heard, locked ++ more))
        present

  reports :
      (candidates : List Candidate) (tracks : List Track)
      → 1 ≤ config.min_hits
      → All (IsTrack config) tracks
      → All (IsReport candidates tracks) (hear_candidates config slot_epoch candidates tracks).1
  unfolding hear_candidates
  reports [] tracks hm h = tt
  reports (not_a_dict ∷ candidates) tracks hm h =
      IsReport-cons not_a_dict candidates tracks tracks
        (hear_candidates config slot_epoch candidates tracks).1 (λ first. refl)
        (reports candidates tracks hm h)
  reports (heard_at zero mode confidence snr_db ∷ candidates) tracks hm h =
      IsReport-cons (heard_at zero mode confidence snr_db) candidates tracks tracks
        (hear_candidates config slot_epoch candidates tracks).1 (λ first. refl)
        (reports candidates tracks hm h)
  reports (heard_at (suc f) mode confidence snr_db ∷ candidates) tracks hm h =
      let c = heard_at (suc f) mode confidence snr_db in
      let (kept, _, _) =
        touch-IsCounted config slot_epoch (suc f) (mode_text mode) confidence snr_db tracks hm h in
      let (touched, locked) =
        touch config slot_epoch (suc f) (mode_text mode) confidence snr_db tracks in
      let more = (hear_candidates config slot_epoch candidates touched).1 in
      subst (All (IsReport (c ∷ candidates) tracks))
        (sym (ap (λ r. r.1) (hear_candidates-cons f mode confidence snr_db candidates tracks)))
        (All-append (IsReport (c ∷ candidates) tracks) locked more
          (IsReport-first c candidates tracks touched locked
            (ap (λ r. r.0) (hear_candidates-cons f mode confidence snr_db [] tracks))
            (touch-IsTouched (suc f) (mode_text mode) confidence snr_db tracks hm h))
          (IsReport-cons c candidates tracks touched more
            (λ first. ap (λ r. r.0) (hear_candidates-cons f mode confidence snr_db first tracks))
            (reports candidates touched hm kept)))

  abbrev pub IsHeard :
      List Candidate → (before : List Track) → List Track × List LockedTrack → Type 0
  IsHeard candidates before (tracks, locked) =
      All (IsTrack config) tracks
      × (locks tracks ≡ locks before + length locked)
      × All (IsReport candidates before) locked

  -- Whatever the candidates: the tracks of a slot stay locked exactly where their hits are enough;
  -- each entry of the result has the mode, the frequency, the hits and the levels of a track that is
  -- locked and has just hits enough behind the first so many candidates, and the epoch of the slot;
  -- and there are as many entries as tracks that became locked.
  pub hear_candidates-IsHeard :
      (candidates : List Candidate) (tracks : List Track)
      → 1 ≤ config.min_hits
      → All (IsTrack config) tracks
      → IsHeard candidates tracks (hear_candidates config slot_epoch candidates tracks)
  hear_candidates-IsHeard candidates tracks hm h =
      let (kept, counted, _) = hear_candidates-IsCounted config slot_epoch candidates tracks hm h in
      (kept, counted, reports candidates tracks hm h)
