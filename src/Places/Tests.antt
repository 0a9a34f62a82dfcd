-- ===== src/Places/Tests.antt =====
-- Two entities that share the start of a prefix, and the square and a subsquare of Lisbon.
use ham_spectrum_analysis.Prelude.{
  ◌++◌, inl, inr, ℕ, ◌*◌, ◌≡◌, ◌<◌, refl, false, none, some, ◌∷◌, length, min, ◌==◌, if◌then◌else◌,
  arith,
}
use ham_spectrum_analysis.Text.{Text, codes, same, strip, upper}
use ham_spectrum_analysis.Places.Dxcc.{
  Index, load_dxcc_index, base_of, callsign_to_dxcc, strip_suffix,
}
use ham_spectrum_analysis.Places.Dxcc.Longest.{IsLongest, callsign_to_dxcc-IsLongest}
use ham_spectrum_analysis.Places.Dxcc.Portable.{callsign_to_dxcc-append}
use ham_spectrum_analysis.Places.Maidenhead.{maidenhead_to_latlon}
use ham_spectrum_analysis.Places.Maidenhead.RoundTrip.{
  locator, IsWithin, maidenhead_to_latlon-IsCentre, maidenhead_to_latlon-locator,
}

-- `CT` is Portugal and `CT3` Madeira.
abbrev index : Index ℕ
index prefix =
    if same prefix (codes "CT")
    then some 272
    else if same prefix (codes "CT3")
    then some 256
    else none

abbrev after_c : Text
after_c = codes "T3KN"

callsign_to_dxcc-IsLongest_example :
    let (result, kept) = callsign_to_dxcc (some index) none (b'C' ∷ after_c) in
    let base = base_of (b'C' ∷ after_c) in
    IsLongest (load_dxcc_index (some index) none) base (min (length base) 5) result
    × (kept ≡ some (load_dxcc_index (some index) none))
callsign_to_dxcc-IsLongest_example = callsign_to_dxcc-IsLongest (some index) none b'C' after_c

callsign_to_dxcc-append_example :
    callsign_to_dxcc (some index) none (b'C' ∷ after_c ++ b'/' ∷ codes "QRP")
    ≡ callsign_to_dxcc (some index) none (b'C' ∷ after_c)
callsign_to_dxcc-append_example =
    callsign_to_dxcc-append (some index) none b'C' after_c (codes "QRP") (ground arith)
      (inr (inr (inr (inl refl))))

madeira : (callsign_to_dxcc (some index) none (codes "ct3kn/p")).0 ≡ some 256
unfolding callsign_to_dxcc strip_suffix upper strip same
madeira = refl

lisbon : maidenhead_to_latlon (codes " im58kr") ≡ some (6179, 4101)
unfolding maidenhead_to_latlon upper strip
lisbon = refl

maidenhead_to_latlon-IsCentre_example :
    (6179 < 180 * 48)
    × (4101 < 360 * 24)
    × (upper (strip (codes " im58kr"))
        ≡ locator (length (upper (strip (codes " im58kr"))) == 6) 6179 4101)
maidenhead_to_latlon-IsCentre_example =
    maidenhead_to_latlon-IsCentre (codes " im58kr") (6179, 4101) lisbon

maidenhead_to_latlon-locator_example :
    (p : ℕ × ℕ) × (maidenhead_to_latlon (locator false 6179 4101) ≡ some p)
    × IsWithin (if false then 1 else 24) 6179 p.0
    × IsWithin (if false then 1 else 24) 4101 p.1
maidenhead_to_latlon-locator_example =
    maidenhead_to_latlon-locator false 6179 4101 (omega arith) (omega arith)
