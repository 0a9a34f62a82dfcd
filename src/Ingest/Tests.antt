-- ===== src/Ingest/Tests.antt =====
-- Reports of the decoders.
use ham_spectrum_analysis.Prelude.{◌≡◌, ◌↔◌, refl, true, false, none, some, [], ◌∷◌, In}
use ham_spectrum_analysis.Text.{Text, codes, upper, is_decimal}
use ham_spectrum_analysis.Ingest.Bands.{Band, band_ranges, infer_band, infer_band_from_frequency}
use ham_spectrum_analysis.Ingest.Bands.Agreement.{Holds, infer_band_iff}
use ham_spectrum_analysis.Ingest.Callsigns.{before_dash, is_valid_upper, is_valid_callsign}
use ham_spectrum_analysis.Ingest.Callsigns.Shape.{IsPlausible, is_valid_upper-IsPlausible}
use ham_spectrum_analysis.Ingest.Values.{str, other, Dict, Python, at}
use ham_spectrum_analysis.Ingest.Events.{ScanState}

-- 7.25 MHz is in the 40 metres of the ingest alone.
infer_band_iff_example :
    ((infer_band 7250000 ≡ some (codes "40m"))
      ↔ ((band : Band) × In band band_ranges × (band.0 ≡ codes "40m") × Holds 7250000 band))
    × ((infer_band_from_frequency [] 7250000 ≡ some (codes "40m"))
        → infer_band 7250000 ≡ some (codes "40m"))
infer_band_iff_example = infer_band_iff 7250000 (codes "40m")

with_ssid : is_valid_callsign (codes "ct7bfv/p-16") ≡ true
unfolding is_valid_callsign upper is_decimal
with_ssid = refl

numbers_alone : is_valid_callsign (codes "121121") ≡ false
unfolding is_valid_callsign upper is_decimal
numbers_alone = refl

-- Its digit is not one of ASCII.
arabic : is_valid_upper (b'K' ∷ 0x661 ∷ b'D' ∷ b'X' ∷ []) ≡ true
unfolding is_valid_upper is_decimal
arabic = refl

is_valid_upper-IsPlausible_example : IsPlausible (before_dash (b'K' ∷ 0x661 ∷ b'D' ∷ b'X' ∷ []))
is_valid_upper-IsPlausible_example =
    is_valid_upper-IsPlausible (b'K' ∷ 0x661 ∷ b'D' ∷ b'X' ∷ []) arabic

abbrev dumped : Dict → Text
dumped [] = []
dumped ((k, v) ∷ entries) = k

abbrev python : Python
python = record {
  int = λ v. some (at 14074000);
  loads = λ s. some [];
  spread = λ v. none;
  dumps = dumped;
  now = codes "2026-02-22T16:27:19+00:00";
}

abbrev report : Dict
report =
    (codes "callsign", str (codes " k1dx! "))
    ∷ (codes "mode", str (codes "ft8"))
    ∷ (codes "frequency_hz", other true (codes "14074000"))
    ∷ []

abbrev scan_state : ScanState
scan_state = record { device = str (codes "rtl"); scan_id = other true (codes "7") }
