-- ===== src/Beacons/Catalog/Tests.antt =====
-- 4U1UN, the first beacon, is on the third band in the third slot.
use ham_spectrum_analysis.Prelude.{◌≡◌, refl, some}
use ham_spectrum_analysis.Beacons.Catalog.{beacons, bands, slot_for, current_slot_index}

third_slot : slot_for 0 2 ≡ some 2
unfolding slot_for beacons bands
third_slot = refl

last_slot : current_slot_index 1700000279 ≡ 17
unfolding current_slot_index
last_slot = refl
