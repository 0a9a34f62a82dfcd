-- ===== src/Kiss/Ax25/Tests.antt =====
-- A frame from a station with a number through a digipeater, and the theorems on it.
use ham_spectrum_analysis.Prelude.{ℕ, ◌≡◌, refl, some, [], ◌∷◌, ◌++◌, map, arith}
use ham_spectrum_analysis.Text.{Text, codes, is_space, strip, decimal}
use ham_spectrum_analysis.Kiss.Ax25.{
  with_ssid, call_chars, decode_callsign, decode_address, read_addresses, parse_ax25,
}
use ham_spectrum_analysis.Kiss.Ax25.Address.{Station, IsStation, shown, encode_addresses}
use ham_spectrum_analysis.Kiss.Ax25.RoundTrip.{parse_ax25-encode}

abbrev station : Text → ℕ → Station
station call ssid = record { call = call; ssid = ssid; flags = 3 }

abbrev apml : Station
apml = station (codes "APLM01") 0

abbrev ct7 : Station
ct7 = station (codes "CT7BFV") 9

abbrev wide : Station
wide = station (codes "WIDE1") 15

apml-IsStation : IsStation apml
unfolding is_space
apml-IsStation = record {
  some_call = omega arith;
  short_call = omega arith;
  seven_bits = omega arith;
  no_space = (refl, (refl, (refl, (refl, (refl, (refl, tt))))));
  small_ssid = omega arith;
}

ct7-IsStation : IsStation ct7
unfolding is_space
ct7-IsStation = record {
  some_call = omega arith;
  short_call = omega arith;
  seven_bits = omega arith;
  no_space = (refl, (refl, (refl, (refl, (refl, (refl, tt))))));
  small_ssid = omega arith;
}

wide-IsStation : IsStation wide
unfolding is_space
wide-IsStation = record {
  some_call = omega arith;
  short_call = omega arith;
  seven_bits = omega arith;
  no_space = (refl, (refl, (refl, (refl, (refl, tt)))));
  small_ssid = omega arith;
}

shown-wide : shown wide ≡ codes "WIDE1-15"
unfolding with_ssid decimal
shown-wide = refl

parse_ax25-encode_example :
    parse_ax25 (encode_addresses apml (ct7 ∷ wide ∷ []) ++ 0x03 ∷ 0xF0 ∷ codes "!4012.34N")
    ≡ some (record {
      dest = some (shown apml);
      src = some (shown ct7);
      path = map shown (wide ∷ []);
      info = some (codes "!4012.34N");
    })
parse_ax25-encode_example =
    parse_ax25-encode apml ct7 (wide ∷ []) 0x03 0xF0 (codes "!4012.34N") apml-IsStation
      ct7-IsStation (wide-IsStation, tt) (omega arith)

parse_ax25_run :
    parse_ax25 (encode_addresses apml (ct7 ∷ []) ++ 0x03 ∷ 0xF0 ∷ [])
    ≡ some (record {
      dest = some (codes "APLM01");
      src = some (codes "CT7BFV-9");
      path = [];
      info = some [];
    })
unfolding parse_ax25 read_addresses decode_address decode_callsign call_chars with_ssid strip
    decimal
parse_ax25_run = refl
