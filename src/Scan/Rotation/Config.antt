-- ===== src/Scan/Rotation/Config.antt =====
-- What `from_dict` accepts.
use ham_spectrum_analysis.Prelude.{
  ℕ, ◌≡◌, ◌≤◌, false, Option, none, some, List, [], ◌∷◌, length, All, arith, is_empty,
}
use ham_spectrum_analysis.Text.{Text, strip}
use ham_spectrum_analysis.Scan.Rotation.{
  min_dwell, clamp_dwell, RotationSlot, RotationConfig, SlotRequest, Request, dwell_or, mode_slots,
  band_slots, requested_slots, from_dict,
}

-- A slot names its band, and stays at least as long as a decoder of its mode needs.
pub record IsSlot (s : RotationSlot) : Type 0 where
  pub band : is_empty s.band ≡ false
  pub dwell : min_dwell s.mode ≤ s.dwell_s

abbrev pub IsAccepted : {A : Type 0} → (A → Type 0) → Option A → Type 0
IsAccepted P none = Unit
IsAccepted P (some a) = P a

mode_slots-IsSlot :
    (band : Text) (dwell : ℕ) (modes : List Text)
    → is_empty band ≡ false
    → All IsSlot (mode_slots band dwell modes)
unfolding mode_slots clamp_dwell
mode_slots-IsSlot band dwell [] h = tt
mode_slots-IsSlot band dwell (m ∷ modes) h =
    (record { band = h; dwell = omega arith }, mode_slots-IsSlot band dwell modes h)

band_slots-IsSlot :
    (dwell : ℕ) (requests : List SlotRequest) → IsAccepted (All IsSlot) (band_slots dwell requests)
unfolding band_slots clamp_dwell
band_slots-IsSlot dwell [] = tt
band_slots-IsSlot dwell (s ∷ requests) = ground (arith, band_slots-IsSlot dwell requests)

requested_slots-IsSlot : (r : Request) → IsAccepted (All IsSlot) (requested_slots r)
unfolding requested_slots
requested_slots-IsSlot r = ground (
  arith,
  band_slots-IsSlot (dwell_or 60 r.dwell_s) r.slots,
  mode_slots-IsSlot (strip r.band) (dwell_or 60 r.dwell_s) r.modes,
)

abbrev pub IsConfig : RotationConfig → Type 0
IsConfig config = All IsSlot config.slots × (2 ≤ length config.slots)

-- A configuration that is accepted has two slots or more, and each has a band and a dwell of at
-- least the minimum of its mode.
from_dict-IsConfig : (r : Request) → IsAccepted IsConfig (from_dict r)
unfolding from_dict
from_dict-IsConfig r = ground (arith, requested_slots-IsSlot r)
