-- ===== src/Ingest/Bands.antt =====
-- The band of a frequency in Hz, by two tables: `_BAND_RANGES` of backend/app/decoders/ingest.py, and
-- the bands of the database or `_FALLBACK_BANDS` of backend/app/dependencies/helpers.py. A frequency
-- that is missing, refused or not above 0 is 0.
pub mod Agreement
use ham_spectrum_analysis.Prelude.{
  ℕ, Bool, true, false, ◌&&◌, Option, none, some, List, [], ◌∷◌, leb, ◌==◌, is_empty, if◌then◌else◌,
}
use ham_spectrum_analysis.Text.{Text, codes}

-- A name with the first and the last frequency.
abbrev pub Band : Type 0
Band = Text × ℕ × ℕ

abbrev pub holds : ℕ → Band → Bool
holds f (name, start_hz, end_hz) = leb start_hz f && leb f end_hz

-- The loop of both functions.
abbrev pub first_band : ℕ → List Band → Option Text
first_band f [] = none
first_band f (band ∷ bands) =
    let rest = first_band f bands in if holds f band then some band.0 else rest

abbrev pub band_ranges : List Band
band_ranges =
    (codes "160m", 1800000, 2000000)
    ∷ (codes "80m", 3500000, 4000000)
    ∷ (codes "60m", 5250000, 5450000)
    ∷ (codes "40m", 7000000, 7300000)
    ∷ (codes "30m", 10100000, 10150000)
    ∷ (codes "20m", 14000000, 14350000)
    ∷ (codes "17m", 18068000, 18168000)
    ∷ (codes "15m", 21000000, 21450000)
    ∷ (codes "12m", 24890000, 24990000)
    ∷ (codes "10m", 28000000, 29700000)
    ∷ (codes "6m", 50000000, 54000000)
    ∷ (codes "2m", 144000000, 148000000)
    ∷ (codes "70cm", 430000000, 440000000)
    ∷ (codes "33cm", 863000000, 870000000)
    ∷ []

abbrev pub fallback_bands : List Band
fallback_bands =
    (codes "160m", 1810000, 2000000)
    ∷ (codes "80m", 3500000, 3800000)
    ∷ (codes "60m", 5250000, 5450000)
    ∷ (codes "40m", 7000000, 7200000)
    ∷ (codes "30m", 10100000, 10150000)
    ∷ (codes "20m", 14000000, 14350000)
    ∷ (codes "17m", 18068000, 18168000)
    ∷ (codes "15m", 21000000, 21450000)
    ∷ (codes "12m", 24890000, 24990000)
    ∷ (codes "10m", 28000000, 29700000)
    ∷ (codes "6m", 50000000, 54000000)
    ∷ (codes "2m", 144000000, 146000000)
    ∷ (codes "70cm", 430000000, 440000000)
    ∷ (codes "33cm", 863000000, 870000000)
    ∷ []

-- `_infer_band_from_frequency` of ingest.py.
unfoldable pub infer_band : (frequency_hz : ℕ) → Option Text
infer_band frequency_hz = if frequency_hz == 0 then none else first_band frequency_hz band_ranges

-- `infer_band_from_frequency` of helpers.py, over the bands of the database.
unfoldable pub infer_band_from_frequency : (db_bands : List Band) → (frequency_hz : ℕ) → Option Text
infer_band_from_frequency db_bands frequency_hz =
    if frequency_hz == 0
    then none
    else first_band frequency_hz (if is_empty db_bands then fallback_bands else db_bands)
