-- ===== src/Beacons/Scheduler/Tuning.antt =====
-- Where the receiver stands in each slot, by the calls that park it.
use ham_spectrum_analysis.Prelude.{
  ℕ, ◌+◌, ◌≡◌, ◌⊎◌, ◌∙◌, inl, inr, sym, ap, subst, true, false, Option, none, some, List, [], ◌∷◌,
  get_elem?, arith, ==_iff, Bool-cases, Option-cases,
}
use ham_spectrum_analysis.Text.{Text}
use ham_spectrum_analysis.Beacons.Catalog.{
  Beacon, BeaconBand, slot_seconds, current_slot_index, beacon_at,
}
use ham_spectrum_analysis.Beacons.Scheduler.{
  Scheduler, Detection, SlotCalls, run_slot, run_slots, on_band, on_beacon, observe, park_on,
  count_slot, is_parked_on,
}
use ham_spectrum_analysis.Beacons.Scheduler.Cycle.{run_slots-nil, run_slots-none, run_slots-cons}

-- The receiver's frequency behind the parking call of a slot, if there is one.
abbrev pub parked_by : Option ℕ → SlotCalls → Option ℕ
parked_by receiver calls = elim calls.park_call [ none ↦ receiver | some f ↦ some f ]

-- Every slot observes the frequency that the receiver stands on.
abbrev pub InTune : (receiver : Option ℕ) → List SlotCalls → Type 0
InTune receiver [] = Unit
InTune receiver (calls ∷ later) =
    (parked_by receiver calls ≡ some calls.observation.freq_hz)
    × InTune (parked_by receiver calls) later

-- Where the scheduler has a callback that parks the receiver.
abbrev pub IsTuned : Scheduler → List SlotCalls → Type 0
IsTuned s calls = (s.parks ≡ false) ⊎ InTune s.parked_freq_hz calls

-- One slot and the scheduler behind it.
abbrev IsParkedSlot : Scheduler → SlotCalls × Scheduler → Type 0
IsParkedSlot s (calls, next) =
    (parked_by s.parked_freq_hz calls ≡ some calls.observation.freq_hz)
    × (next.parked_freq_hz ≡ some calls.observation.freq_hz)
    × (next.parks ≡ true)

is_parked_on-true :
    (freq_hz : ℕ) (parked : Option ℕ) → is_parked_on freq_hz parked ≡ true → parked ≡ some freq_hz
unfolding is_parked_on
is_parked_on-true freq_hz none h = absurd (ground (arith, h))
is_parked_on-true freq_hz (some p) h = ap some ((==_iff p freq_hz).0 h)

-- The call and the scheduler of `park_on`.
abbrev IsParkedOn : (freq_hz : ℕ) → Scheduler → Option ℕ × Scheduler → Type 0
IsParkedOn freq_hz s (call, parked) =
    (elim call [ none ↦ s.parked_freq_hz | some f ↦ some f ] ≡ some freq_hz)
    × (parked.parked_freq_hz ≡ some freq_hz)
    × (parked.parks ≡ true)

park_on-IsParkedOn :
    (band : BeaconBand) (s : Scheduler)
    → s.parks ≡ true
    → IsParkedOn band.freq_hz s (park_on band s)
unfolding park_on
park_on-IsParkedOn band s h = elim (Bool-cases (is_parked_on band.freq_hz s.parked_freq_hz)) [
  | inl q ↦
      let here = is_parked_on-true band.freq_hz s.parked_freq_hz q in ground (arith, h, q, here)
  | inr q ↦ ground (arith, h, q)
]

some_eq : {A : Type 0} (a b : A) → some a ≡ some b → a ≡ b
some_eq a b e = ground (arith, e)

on_beacon-IsParkedSlot :
    (band : BeaconBand) (slot slot_start : ℕ) (result : Option Detection) (s : Scheduler)
    → s.parks ≡ true
    → (beacon : Option Beacon) (out : SlotCalls × Scheduler)
    → on_beacon band slot slot_start result s beacon ≡ some out
    → IsParkedSlot s out
unfolding on_beacon count_slot observe
on_beacon-IsParkedSlot band slot slot_start result s h none out e = absurd (ground (arith, e))
on_beacon-IsParkedSlot band slot slot_start result s h (some beacon) out e =
    subst (IsParkedSlot s) (some_eq _ _ e) (park_on-IsParkedOn band s h)

on_band-IsParkedSlot :
    (slot_start : ℕ) (result : Option Detection) (s : Scheduler)
    → s.parks ≡ true
    → (band : Option BeaconBand) (out : SlotCalls × Scheduler)
    → on_band slot_start result s band ≡ some out
    → IsParkedSlot s out
unfolding on_band
on_band-IsParkedSlot slot_start result s h none out e = absurd (ground (arith, e))
on_band-IsParkedSlot slot_start result s h (some band) out e =
    let slot = current_slot_index slot_start in
    on_beacon-IsParkedSlot band slot slot_start result s h (beacon_at slot band.index) out e

slot_parked :
    (slot_start : ℕ) (result : Option Detection) (s : Scheduler)
    → s.parks ≡ true
    → (out : SlotCalls × Scheduler) → run_slot slot_start result s ≡ some out
    → IsParkedSlot s out
unfolding run_slot
slot_parked slot_start result s h out e =
    on_band-IsParkedSlot slot_start result s h (get_elem? s.bands s.band_index) out e

run_slots-InTune :
    (error : Text) (slot_start : ℕ) (results : List (Option Detection)) (s : Scheduler)
    → s.parks ≡ true
    → InTune s.parked_freq_hz (run_slots error slot_start results s).0
run_slots-InTune error slot_start [] s h =
    subst (InTune s.parked_freq_hz) (sym (ap (λ r. r.0) (run_slots-nil error slot_start s))) tt
run_slots-InTune error slot_start (result ∷ results) s h =
    elim (Option-cases (run_slot slot_start result s)) [
      | inl q ↦
          subst (InTune s.parked_freq_hz) (sym (run_slots-none error slot_start result results s q))
            tt
      | inr ((calls, next), q) ↦
          let (tuned, moved, parks) = slot_parked slot_start result s h (calls, next) q in
          let later = (run_slots error (slot_start + slot_seconds) results next).0 in
          let rest : InTune next.parked_freq_hz later =
            run_slots-InTune error (slot_start + slot_seconds) results next parks in
          subst (InTune s.parked_freq_hz)
            (sym (ap (λ r. r.0) (run_slots-cons error slot_start result results calls s next q)))
            (tuned, subst (λ r. InTune r later) (moved ∙ sym tuned) rest)
    ]

-- Whatever the bands, the time and the results: a scheduler with a callback that parks the receiver
-- observes in each slot the frequency on which the receiver then stands.
pub run_slots-IsTuned :
    (error : Text) (slot_start : ℕ) (results : List (Option Detection)) (s : Scheduler)
    → IsTuned s (run_slots error slot_start results s).0
run_slots-IsTuned error slot_start results s = elim (Bool-cases s.parks) [
  | inl h ↦ inr (run_slots-InTune error slot_start results s h)
  | inr h ↦ inl h
]
