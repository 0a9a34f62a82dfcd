-- ===== src/Occupancy/Hints/Windows.antt =====
-- The first window that a frequency lies in, and the windows of 30 m.
use ham_spectrum_analysis.Prelude.{
  ℕ, ◌+◌, ◌≡◌, ◌≢◌, ◌≤◌, ◌<◌, refl, sym, ap, subst, Bool, true, false, Option, none, some, List, [],
  ◌∷◌, ◌++◌, ◌==◌, if◌then◌else◌, All, arith,
}
use ham_spectrum_analysis.Text.{Text, codes, same, strip, lower}
use ham_spectrum_analysis.Ingest.Bands.{Band}
use ham_spectrum_analysis.Occupancy.Hints.{
  ModeWindow, known_windows, windows_of, in_window, first_mode, hint_band, hint_mode_by_frequency,
}

abbrev pub InWindow : ℕ → ModeWindow → Type 0
InWindow freq window = (freq ≤ window.0 + window.1) × (window.0 ≤ freq + window.1)

abbrev pub IsFirst : (freq : ℕ) → List ModeWindow → Option Text → Type 0
IsFirst freq windows none = All (λ w. ¬ InWindow freq w) windows
IsFirst freq windows (some mode) =
    (before after : List ModeWindow) × (window : ModeWindow) × (windows ≡ before ++ window ∷ after)
    × (window.2 ≡ mode)
    × InWindow freq window
    × All (λ w. ¬ InWindow freq w) before

IsFirst-cons :
    (freq : ℕ) (window : ModeWindow) (windows : List ModeWindow) (r : Option Text)
    → ¬ InWindow freq window
    → IsFirst freq windows r
    → IsFirst freq (window ∷ windows) r
IsFirst-cons freq window windows none n h = (n, h)
IsFirst-cons freq window windows (some mode) n
      (before, after, found, split, named, inside, none_before) =
    (window ∷ before, after, found, ap (λ ws. window ∷ ws) split, named, inside, (n, none_before))

IsFirst-window :
    (freq : ℕ) (window : ModeWindow) (windows : List ModeWindow) (r : Option Text) (b : Bool)
    → in_window freq window ≡ b
    → IsFirst freq windows r
    → IsFirst freq (window ∷ windows) (if b then some window.2 else r)
IsFirst-window freq window windows r true e h =
    ([], windows, window, refl, refl, (ground (arith, e), ground (arith, e)), tt)
IsFirst-window freq window windows r false e h =
    IsFirst-cons freq window windows r (λ k. ground (arith, e, k)) h

first_mode-IsFirst :
    (freq : ℕ) (windows : List ModeWindow) → IsFirst freq windows (first_mode freq windows)
first_mode-IsFirst freq [] = tt
first_mode-IsFirst freq (window ∷ windows) =
    IsFirst-window freq window windows (first_mode freq windows) (in_window freq window) refl
      (first_mode-IsFirst freq windows)

-- A frequency gets the mode of the first window of its band that it lies in, and no mode where it lies
-- in none.
hint_mode_by_frequency-IsFirst :
    (db_bands : List Band) (freq : ℕ) (band_name : Text)
    → 0 < freq
    → IsFirst freq
        (windows_of (hint_band db_bands freq band_name) known_windows)
        (hint_mode_by_frequency db_bands freq band_name)
unfolding hint_mode_by_frequency
hint_mode_by_frequency-IsFirst db_bands freq band_name h =
    let windows = windows_of (hint_band db_bands freq band_name) known_windows in
    let positive : (freq == 0) ≡ false = ground (arith, h) in
    subst (IsFirst freq windows)
      (sym (ap (λ b. if b then none else first_mode freq windows) positive))
      (first_mode-IsFirst freq windows)

-- No frequency is hinted as WSPR on 30 m: what FT8 and FT4 leave lies outside the window of WSPR.
pub hint_mode_by_frequency_thirty :
    (db_bands : List Band) (freq : ℕ)
    → hint_mode_by_frequency db_bands freq (codes "30m") ≢ some (codes "WSPR")
unfolding hint_mode_by_frequency lower strip same
hint_mode_by_frequency_thirty db_bands freq e = ground (arith, e)
