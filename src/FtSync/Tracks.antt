-- ===== src/FtSync/Tracks.antt =====
-- The tracks of a slot: the methods `_find_track` and the loop of `update`.
pub mod Locks
pub mod Reports
use ham_spectrum_analysis.Prelude.{
  ℕ, zero, suc, ◌+◌, ◌-◌, ◌*◌, ◌/◌, ◌%◌, max, Bool, true, false, ◌&&◌, not, Option, none, some,
  List, [], ◌∷◌, ◌++◌, map, length, take, any, leb, ltb, ◌==◌, is_empty, if◌then◌else◌,
}
use ham_spectrum_analysis.Text.{Text, codes, same, strip, upper}

pub record Config : Type 0 where
  pub slot_seconds : ℕ
  pub min_hits : ℕ
  pub freq_tolerance_hz : ℕ
  pub max_slots : ℕ

pub record Track : Type 0 where
  pub mode : Text
  pub frequency_hz : ℕ
  pub hits : ℕ
  pub best_confidence : ℕ
  pub best_snr_db : ℕ
  pub locked : Bool

pub record LockedTrack : Type 0 where
  pub slot_epoch : ℕ
  pub mode : Text
  pub frequency_hz : ℕ
  pub hits : ℕ
  pub best_confidence : ℕ
  pub best_snr_db : ℕ

-- A candidate of the decoder: a frequency that is missing, refused by `int` or not above 0 is 0.
pub data Candidate : Type 0 where
  not_a_dict : Candidate
  heard_at : (frequency_hz : ℕ) (mode : Option Text) (confidence snr_db : ℕ) → Candidate

-- `str(mode or "").strip().upper()`, with `or "FT8"` where the source has it.
plain_mode : Text → Text
plain_mode mode = upper (strip mode)

abbrev or_ft8 : Text → Text
or_ft8 [] = codes "FT8"
or_ft8 (c ∷ s) = c ∷ s

mode_text : Option Text → Text
unfolding plain_mode
mode_text none = codes "FT8"
mode_text (some mode) = or_ft8 (plain_mode mode)

distance : ℕ → ℕ → ℕ
distance a b = (a - b) + (b - a)

-- The test of `_find_track` for one track.
is_track : Config → (frequency_hz : ℕ) → (mode : Text) → Track → Bool
unfolding plain_mode distance
is_track config frequency_hz mode track =
    same (plain_mode track.mode) (or_ft8 (plain_mode mode))
    && leb (distance track.frequency_hz frequency_hz) config.freq_tolerance_hz

-- `round(n / d)`: to the nearest number, and between two to the even one.
round_div : (n d : ℕ) → ℕ
round_div n d =
    let q = n / d in
    let twice = n % d * 2 in if ltb twice d then q else if ltb d twice then q + 1 else q + q % 2

-- The counts of one more hit.
pub hit : (frequency_hz : ℕ) → (mode : Text) → (confidence snr_db : ℕ) → Track → Track
hit frequency_hz mode confidence snr_db track = record track {
  hits = track.hits + 1;
  mode = mode;
  frequency_hz =
      round_div (track.frequency_hz * track.hits + frequency_hz) (max 1 (track.hits + 1));
  best_confidence = max track.best_confidence confidence;
  best_snr_db = max track.best_snr_db snr_db;
}

pub new_track : (frequency_hz : ℕ) → (mode : Text) → Track
new_track frequency_hz mode = record {
  mode = mode;
  frequency_hz = frequency_hz;
  hits = 0;
  best_confidence = 0;
  best_snr_db = 0;
  locked = false;
}

lock_entry : (slot_epoch : ℕ) → Track → LockedTrack
lock_entry slot_epoch track = record {
  slot_epoch = slot_epoch;
  mode = track.mode;
  frequency_hz = track.frequency_hz;
  hits = track.hits;
  best_confidence = track.best_confidence;
  best_snr_db = track.best_snr_db;
}

-- A track behind a hit is locked, once, when it has hits enough.
pub lock : Config → (slot_epoch : ℕ) → Track → Track × List LockedTrack
unfolding lock_entry
lock config slot_epoch track =
    if not track.locked && leb config.min_hits track.hits
    then (record track { locked = true }, lock_entry slot_epoch track ∷ [])
    else (track, [])

-- In the tracks of a slot the first one that matches is hit, or a new one at the end.
pub touch :
    Config
    → (slot_epoch : ℕ) → (frequency_hz : ℕ) → (mode : Text) → (confidence snr_db : ℕ) → List Track
    → List Track × List LockedTrack
unfolding is_track new_track
touch config slot_epoch frequency_hz mode confidence snr_db [] =
    let (track, locked) =
      lock config slot_epoch
        (hit frequency_hz mode confidence snr_db (new_track frequency_hz mode)) in
    (track ∷ [], locked)
touch config slot_epoch frequency_hz mode confidence snr_db (t ∷ tracks) =
    let (rest, later) = touch config slot_epoch frequency_hz mode confidence snr_db tracks in
    let (track, locked) = lock config slot_epoch (hit frequency_hz mode confidence snr_db t) in
    if is_track config frequency_hz mode t then (track ∷ tracks, locked) else (t ∷ rest, later)

-- The loop of `update` over the candidates, on the tracks of the slot.
pub hear_candidates :
    Config → (slot_epoch : ℕ) → List Candidate → List Track → List Track × List LockedTrack
unfolding touch mode_text
hear_candidates config slot_epoch [] tracks = (tracks, [])
hear_candidates config slot_epoch (not_a_dict ∷ candidates) tracks =
    hear_candidates config slot_epoch candidates tracks
hear_candidates config slot_epoch (heard_at frequency_hz mode confidence snr_db ∷ candidates)
      tracks =
    let (touched, locked) =
      touch config slot_epoch frequency_hz (mode_text mode) confidence snr_db tracks in
    let (heard, more) = hear_candidates config slot_epoch candidates touched in
    let skipped = hear_candidates config slot_epoch candidates tracks in
    if frequency_hz == 0 then skipped else (heard, locked ++ more)
