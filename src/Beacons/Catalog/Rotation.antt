-- ===== src/Beacons/Catalog/Rotation.antt =====
-- Which beacon sends on which band in which slot.
use ham_spectrum_analysis.Prelude.{
  ℕ, zero, suc, ◌+◌, ◌-◌, ◌%◌, ◌≡◌, ◌<◌, refl, some, List, [], ◌∷◌, length, get_elem?, arith,
}
use ham_spectrum_analysis.Beacons.Catalog.{
  Beacon, beacons, bands, slots_per_cycle, beacon_at, slot_for,
}

-- Each beacon stands at its own index.
abbrev IsIndexed : ℕ → List Beacon → Type 0
IsIndexed n [] = Unit
IsIndexed n (b ∷ rest) = (b.index ≡ n) × IsIndexed (n + 1) rest

index-get_elem? :
    (n k : ℕ) (xs : List Beacon) (b : Beacon)
    → IsIndexed n xs
    → get_elem? xs k ≡ some b
    → b.index ≡ n + k
index-get_elem? n k [] b h e = ground arith
index-get_elem? n zero (x ∷ xs) b h e = ground (arith, h)
index-get_elem? n (suc k) (x ∷ xs) b h e = omega (arith, index-get_elem? (n + 1) k xs b h.1 e)

found-get_elem? :
    (k : ℕ) (xs : List Beacon) → k < length xs → (b : Beacon) × (get_elem? xs k ≡ some b)
found-get_elem? k [] h = absurd (omega arith)
found-get_elem? zero (x ∷ xs) h = (x, refl)
found-get_elem? (suc k) (x ∷ xs) h = found-get_elem? k xs (omega arith)

beacons-IsIndexed : IsIndexed 0 beacons
unfolding beacons
beacons-IsIndexed = ground arith

pub length-beacons : length beacons ≡ 18
unfolding beacons
length-beacons = refl

length-bands : length bands ≡ 5
unfolding bands
length-bands = refl

pub slot_for-listed :
    (index band slot : ℕ)
    → index < length beacons
    → band < length bands
    → (index + band) % slots_per_cycle ≡ slot
    → slot_for index band ≡ some slot
unfolding slot_for
slot_for-listed index band slot hi hb e = ground (arith, e)

-- In every slot of the cycle a beacon of the list is found on every band, and `slot_for` gives back
-- the slot of that beacon on that band.
beacon_at-slot_for :
    (slot band : ℕ)
    → slot < slots_per_cycle
    → band < length bands
    → (b : Beacon) × (beacon_at slot band ≡ some b)
      × (b.index < length beacons)
      × (slot_for b.index band ≡ some slot)
unfolding beacon_at slot_for
beacon_at-slot_for slot band hs hb =
    let few : band < 5 = omega (arith, length-bands) in
    let k = (slot + slots_per_cycle - band) % slots_per_cycle in
    let (b, found) = found-get_elem? k beacons (omega (arith, length-beacons)) in
    let index = index-get_elem? 0 k beacons b beacons-IsIndexed found in
    let listed : b.index < length beacons = omega (arith, index, length-beacons) in
    let back : (b.index + band) % slots_per_cycle ≡ slot = omega (arith, index) in
    (b, ground (arith, found), listed, slot_for-listed b.index band slot listed hb back)

-- Two beacons do not send on one band in one slot.
same_index :
    (i j band slot : ℕ)
    → i < length beacons
    → j < length beacons
    → slot_for i band ≡ some slot
    → slot_for j band ≡ some slot
    → j ≡ i
unfolding slot_for
same_index i j band slot hi hj ei ej = ground (arith, length-beacons)

-- Every beacon has one slot on every band, and it is that beacon which is found there.
slot_for-beacon_at :
    (index band : ℕ)
    → index < length beacons
    → band < length bands
    → (slot : ℕ) × (b : Beacon) × (slot_for index band ≡ some slot)
      × (slot < slots_per_cycle)
      × (beacon_at slot band ≡ some b)
      × (b.index ≡ index)
slot_for-beacon_at index band hi hb =
    let few : band < 5 = omega (arith, length-bands) in
    let slot = (index + band) % slots_per_cycle in
    let inside : slot < slots_per_cycle = omega arith in
    let (b, found, listed, back) = beacon_at-slot_for slot band inside hb in
    let here = slot_for-listed index band slot hi hb refl in
    (slot, b, here, inside, found, same_index index b.index band slot hi listed here back)

-- The same in numbers.
pub beacon_at-index :
    (slot band : ℕ)
    → slot < slots_per_cycle
    → band < length bands
    → (b : Beacon) × (beacon_at slot band ≡ some b)
      × (b.index < slots_per_cycle)
      × ((b.index + band) % slots_per_cycle ≡ slot)
unfolding slot_for
beacon_at-index slot band hs hb =
    let (b, found, listed, back) = beacon_at-slot_for slot band hs hb in
    let inside : b.index < slots_per_cycle = omega (arith, length-beacons, listed) in
    (b, found, inside, ground (arith, back, listed, hb))
