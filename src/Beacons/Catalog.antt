-- ===== src/Beacons/Catalog.antt =====
-- backend/app/beacons/catalog.py: the beacons, the bands, and which beacon sends when. The
-- coordinates and the notes of a beacon, which nothing here reads, are left out. A time is a number
-- of whole seconds since the epoch, or of milliseconds where the source keeps the fraction.
pub mod Rotation
pub mod Clock
mod Tests
use ham_spectrum_analysis.Prelude.{
  ℕ, ◌+◌, ◌-◌, ◌*◌, ◌/◌, ◌%◌, Bool, true, false, Option, none, some, List, [], ◌∷◌, length,
  get_elem?, ltb, if◌then◌else◌,
}
use ham_spectrum_analysis.Text.{Text, codes}

pub data Status : Type 0 where
  active off_air intermittent : Status

pub record Beacon : Type 0 where
  pub index : ℕ
  pub callsign : Text
  pub location : Text
  pub qth_locator : Text
  pub status : Status

abbrev beacon : ℕ → Text → Text → Text → Status → Beacon
beacon index callsign location qth_locator status = record {
  index = index;
  callsign = callsign;
  location = location;
  qth_locator = qth_locator;
  status = status;
}

pub beacons : List Beacon
beacons =
    beacon 0 (codes "4U1UN") (codes "United Nations HQ, New York, USA") (codes "FN30as")
      intermittent
    ∷ beacon 1 (codes "VE8AT") (codes "Eureka, Nunavut, Canada") (codes "EQ79ax") off_air
    ∷ beacon 2 (codes "W6WX") (codes "Mt Umunhum, California, USA") (codes "CM97bd") active
    ∷ beacon 3 (codes "KH6RS") (codes "Maui, Hawaii, USA") (codes "BL10ts") active
    ∷ beacon 4 (codes "ZL6B") (codes "Masterton, New Zealand") (codes "RE78tw") active
    ∷ beacon 5 (codes "VK6RBP") (codes "Rolystone, Western Australia") (codes "OF87av") active
    ∷ beacon 6 (codes "JA2IGY") (codes "Mt Asama, Japan") (codes "PM84jk") active
    ∷ beacon 7 (codes "RR9O") (codes "Novosibirsk, Russia") (codes "NO14kx") active
    ∷ beacon 8 (codes "VR2B") (codes "Hong Kong") (codes "OL72bg") off_air
    ∷ beacon 9 (codes "4S7B") (codes "Colombo, Sri Lanka") (codes "MJ96wv") active
    ∷ beacon 10 (codes "ZS6DN") (codes "Pretoria, South Africa") (codes "KG44dc") active
    ∷ beacon 11 (codes "5Z4B") (codes "Kilifi, Kenya") (codes "KI94kw") off_air
    ∷ beacon 12 (codes "4X6TU") (codes "Tel Aviv, Israel") (codes "KM72jb") active
    ∷ beacon 13 (codes "OH2B") (codes "Espoo, Finland") (codes "KP20ie") active
    ∷ beacon 14 (codes "CS3B") (codes "Madeira, Portugal") (codes "IM12or") active
    ∷ beacon 15 (codes "LU4AA") (codes "Buenos Aires, Argentina") (codes "GF05tj") active
    ∷ beacon 16 (codes "OA4B") (codes "Lima, Peru") (codes "FH17mw") off_air
    ∷ beacon 17 (codes "YV5B") (codes "Caracas, Venezuela") (codes "FK60nk") off_air
    ∷ []

pub record BeaconBand : Type 0 where
  pub index : ℕ
  pub name : Text
  pub freq_hz : ℕ

abbrev band : ℕ → Text → ℕ → BeaconBand
band index name freq_hz = record { index = index; name = name; freq_hz = freq_hz }

unfoldable pub bands : List BeaconBand
bands =
    band 0 (codes "20m") 14100000
    ∷ band 1 (codes "17m") 18110000
    ∷ band 2 (codes "15m") 21150000
    ∷ band 3 (codes "12m") 24930000
    ∷ band 4 (codes "10m") 28200000
    ∷ []

abbrev pub slot_seconds : ℕ
slot_seconds = 10

abbrev pub slots_per_cycle : ℕ
slots_per_cycle = 18

abbrev pub cycle_seconds : ℕ
cycle_seconds = 180

-- `none` is an IndexError. The difference of the indices may be negative in the source, whose `%`
-- then adds a cycle.
pub beacon_at : (slot_index band_index : ℕ) → Option Beacon
beacon_at slot_index band_index =
    if ltb band_index (length bands)
    then if ltb slot_index slots_per_cycle
      then get_elem? beacons ((slot_index + slots_per_cycle - band_index) % slots_per_cycle)
      else none
    else none

pub slot_for : (beacon_index band_index : ℕ) → Option ℕ
slot_for beacon_index band_index =
    if ltb beacon_index (length beacons)
    then if ltb band_index (length bands)
      then some ((beacon_index + band_index) % slots_per_cycle)
      else none
    else none

pub current_slot_index : (epoch_s : ℕ) → ℕ
current_slot_index epoch_s = epoch_s % cycle_seconds / slot_seconds

pub current_cycle_window : (epoch_s : ℕ) → ℕ × ℕ
current_cycle_window epoch_s =
    let cycle_start = epoch_s - epoch_s % cycle_seconds in
    (cycle_start, cycle_start + cycle_seconds)

-- In milliseconds.
seconds_into_slot : (epoch_ms : ℕ) → ℕ
seconds_into_slot epoch_ms = epoch_ms % (slot_seconds * 1000)

unfoldable pub next_slot_start : (epoch_s : ℕ) → ℕ
next_slot_start epoch_s = (epoch_s / slot_seconds + 1) * slot_seconds

is_active : Beacon → Bool
is_active b = elim b.status [ active ↦ true | _ ↦ false ]

active_of : List Beacon → List Beacon
active_of [] = []
active_of (b ∷ rest) = let others = active_of rest in if is_active b then b ∷ others else others

all_active_beacons : List Beacon
all_active_beacons = active_of beacons
