-- ===== src/Occupancy/Hints.antt =====
-- `hint_mode_by_frequency` of backend/app/dependencies/helpers.py, in whole Hz. A frequency that is
-- missing or not above 0 is 0, and a name that is missing is empty.
pub mod Windows
use ham_spectrum_analysis.Prelude.{
  ℕ, ◌+◌, Bool, ◌&&◌, Option, none, some, List, [], ◌∷◌, leb, ◌==◌, is_empty, if◌then◌else◌,
}
use ham_spectrum_analysis.Text.{Text, codes, same, strip, lower}
use ham_spectrum_analysis.Ingest.Bands.{Band, infer_band_from_frequency}

-- The centre, the tolerance and the mode.
abbrev pub ModeWindow : Type 0
ModeWindow = ℕ × ℕ × Text

abbrev pub ft8 : ℕ → ℕ → ModeWindow
ft8 center_hz tolerance_hz = (center_hz, tolerance_hz, codes "FT8")

abbrev pub ft4 : ℕ → ℕ → ModeWindow
ft4 center_hz tolerance_hz = (center_hz, tolerance_hz, codes "FT4")

abbrev pub wspr : ℕ → ℕ → ModeWindow
wspr center_hz tolerance_hz = (center_hz, tolerance_hz, codes "WSPR")

abbrev pub known_windows : List (Text × List ModeWindow)
known_windows =
    (codes "20m", ft8 14074000 2500 ∷ ft4 14080000 2000 ∷ wspr 14095600 2000 ∷ [])
    ∷ (codes "40m", ft8 7074000 2500 ∷ ft4 7047500 2000 ∷ wspr 7038600 2000 ∷ [])
    ∷ (codes "80m", ft8 3573000 2500 ∷ ft4 3575500 2000 ∷ wspr 3568600 2000 ∷ [])
    ∷ (codes "30m", ft8 10136000 2000 ∷ ft4 10140000 2000 ∷ wspr 10138700 2000 ∷ [])
    ∷ (codes "17m", ft8 18100000 2500 ∷ ft4 18104000 2000 ∷ [])
    ∷ (codes "15m", ft8 21074000 2500 ∷ ft4 21080000 2000 ∷ wspr 21094600 2000 ∷ [])
    ∷ (codes "12m", ft8 24915000 2500 ∷ ft4 24919000 2000 ∷ [])
    ∷ (codes "10m", ft8 28074000 2500 ∷ ft4 28180000 3000 ∷ [])
    ∷ (codes "6m", ft8 50313000 2500 ∷ ft4 50318000 2000 ∷ [])
    ∷ (codes "2m", ft8 144174000 2500 ∷ [])
    ∷ (codes "160m", ft8 1840000 2500 ∷ wspr 1836600 2000 ∷ [])
    ∷ (codes "60m", ft8 5357000 2500 ∷ [])
    ∷ []

-- `known_windows.get(band, [])`
abbrev pub windows_of : (band : Text) → List (Text × List ModeWindow) → List ModeWindow
windows_of band [] = []
windows_of band (entry ∷ entries) =
    let rest = windows_of band entries in if same entry.0 band then entry.1 else rest

abbrev pub in_window : (freq : ℕ) → ModeWindow → Bool
in_window freq (center_hz, tolerance_hz, mode) =
    leb freq (center_hz + tolerance_hz) && leb center_hz (freq + tolerance_hz)

abbrev pub first_mode : (freq : ℕ) → List ModeWindow → Option Text
first_mode freq [] = none
first_mode freq (window ∷ windows) =
    let rest = first_mode freq windows in if in_window freq window then some window.2 else rest

abbrev pub inferred_or_empty : Option Text → Text
inferred_or_empty none = []
inferred_or_empty (some name) = name

-- An empty name is inferred; the result is what `band` is in the source.
abbrev pub hint_band : (db_bands : List Band) (freq : ℕ) (band_name : Text) → Text
hint_band db_bands freq band_name = lower (
    strip (
      if is_empty band_name
      then inferred_or_empty (infer_band_from_frequency db_bands freq)
      else band_name))

unfoldable pub hint_mode_by_frequency :
    (db_bands : List Band) (freq : ℕ) (band_name : Text) → Option Text
hint_mode_by_frequency db_bands freq band_name =
    if freq == 0
    then none
    else first_mode freq (windows_of (hint_band db_bands freq band_name) known_windows)
