-- ===== src/Places/Maidenhead.antt =====
-- `maidenhead_to_latlon` of backend/app/dependencies/helpers.py. A latitude is counted in 48ths of a
-- degree from -90, a longitude in 24ths of a degree from -180, which holds every centre exactly; the
-- rounding to five decimals is left out. Letters are those of ASCII.
pub mod RoundTrip
use ham_spectrum_analysis.Prelude.{
  ℕ, ◌+◌, ◌-◌, ◌*◌, Bool, ◌&&◌, Option, none, some, List, [], ◌∷◌, length, leb, ltb, if◌then◌else◌,
}
use ham_spectrum_analysis.Text.{Text, strip, upper}

-- `[A-R]`, `[0-9]` and `[A-X]`.
abbrev pub is_field : ℕ → Bool
is_field c = leb b'A' c && leb c b'R'

abbrev pub is_square : ℕ → Bool
is_square c = leb b'0' c && leb c b'9'

abbrev pub is_subsquare : ℕ → Bool
is_subsquare c = leb b'A' c && leb c b'X'

-- 20 and 2 degrees of longitude, 10 degrees and one degree of latitude.
abbrev pub corner : (field square : ℕ) → ℕ
corner field square = (field - b'A') * 480 + (square - b'0') * 48

-- The centre of a subsquare lies one unit behind its corner, that of a square 24 units.
abbrev pub centre_of : Text → Option (ℕ × ℕ)
centre_of (a ∷ b ∷ c ∷ d ∷ []) =
    if is_field a && is_field b && is_square c && is_square d
    then some (corner b d + 24, corner a c + 24)
    else none
centre_of (a ∷ b ∷ c ∷ d ∷ e ∷ f ∷ []) =
    if is_field a && is_field b && is_square c && is_square d && is_subsquare e && is_subsquare f
    then some (corner b d + (f - b'A') * 2 + 1, corner a c + (e - b'A') * 2 + 1)
    else none
centre_of _ = none

unfoldable pub maidenhead_to_latlon : (grid : Text) → Option (ℕ × ℕ)
maidenhead_to_latlon grid = if ltb (length grid) 4 then none else centre_of (upper (strip grid))
