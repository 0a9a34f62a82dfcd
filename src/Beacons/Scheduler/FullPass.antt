-- ===== src/Beacons/Scheduler/FullPass.antt =====
-- A pass over all bands: one cycle on each of them.
use ham_spectrum_analysis.Prelude.{
  ℕ, zero, suc, ◌+◌, ◌-◌, ◌*◌, ◌%◌, ◌≡◌, ◌≤◌, ◌<◌, refl, Option, some, List, [], ◌∷◌, ◌++◌, length,
  get_elem?, take, take-drop, drop, ==_iff, ◌==◌, In, In-append_left, In-append_right, inl, inr,
  subst, sym, ap, ◌∙◌, arith, All, length-append, length-drop, length-take, if◌then◌else◌, ltb,
  Bool-cases, Option-cases,
}
use native.Mathlib.Nat.{mod-eq_of_lt, mod_self}
use ham_spectrum_analysis.Text.{Text}
use ham_spectrum_analysis.Beacons.Catalog.{BeaconBand, bands, slot_seconds, slots_per_cycle}
use ham_spectrum_analysis.Beacons.Scheduler.{Scheduler, Detection, SlotCalls, run_slot, run_slots}
use ham_spectrum_analysis.Beacons.Scheduler.Cycle.{run_slots-nil, run_slots-none, run_slots-cons}
use ham_spectrum_analysis.Beacons.Scheduler.FullCycle.{ObservesAll, run_slots-cycle}
use ham_spectrum_analysis.Beacons.Scheduler.Tuning.{IsTuned, run_slots-IsTuned}

-- The loop over some slots and then over others, where the first ones raise no exception.
run_slots-append :
    (error : Text) (slot_start : ℕ) (a b : List (Option Detection)) (s next last : Scheduler)
    (calls more : List SlotCalls)
    → run_slots error slot_start a s ≡ (calls, next)
    → length calls ≡ length a
    → run_slots error (slot_start + length a * slot_seconds) b next ≡ (more, last)
    → run_slots error slot_start (a ++ b) s ≡ (calls ++ more, last)
run_slots-append error slot_start [] b s next last calls more e n f =
    let both = sym (run_slots-nil error slot_start s) ∙ e in
    let start_same : slot_start ≡ slot_start + 0 = omega arith in
    ap (λ t. run_slots error t b s) start_same
    ∙ ap (λ r. run_slots error (slot_start + 0) b r.1) both
    ∙ f
    ∙ ap (λ r. (r.0 ++ more, last)) both
run_slots-append error slot_start (r ∷ a) b s next last calls more e n f =
    elim (Option-cases (run_slot slot_start r s)) [
      | inl q ↦
          let empty = run_slots-none error slot_start r a s q in
          absurd (omega (arith, n, ap (λ l. length l.0) e, ap length empty))
      | inr ((c, after), q) ↦
          let (later, end) = run_slots error (slot_start + slot_seconds) a after in
          let both : ◌≡◌ {A = List SlotCalls × Scheduler} (c ∷ later, end) (calls, next) =
            sym (run_slots-cons error slot_start r a c s after q) ∙ e in
          let times : slot_start + slot_seconds + length a * slot_seconds
              ≡ slot_start + suc (length a) * slot_seconds =
            omega arith in
          let rest =
            run_slots-append error (slot_start + slot_seconds) a b after end last later more refl
              (omega (arith, n, ap (λ l. length l.0) both))
              (ap (λ t. run_slots error t b end) times
                ∙ ap (λ l. run_slots error (slot_start + suc (length a) * slot_seconds) b l.1) both
                ∙ f) in
          run_slots-cons error slot_start r (a ++ b) c s after q
          ∙ ap (λ l. (c ∷ l.0, l.1)) rest
          ∙ ap (λ l. (l.0 ++ more, last)) both
    ]

abbrev Listed : List BeaconBand → Type 0
Listed = All (λ band. band.index < length bands)

-- The index behind a cycle.
next_index : (b n : ℕ) → b < n → (b + 1) % n ≡ (if ltb (b + 1) n then b + 1 else 0)
next_index b n h = elim (Bool-cases (ltb (b + 1) n)) [
  | inl q ↦ rw q (mod-eq_of_lt (ground (arith, q)))
  | inr q ↦ let e : b + 1 ≡ n = ground (arith, q, h) in rw q (ap (λ m. m % n) e ∙ mod_self n)
]

band_at :
    (p : ℕ) (list : List BeaconBand)
    → p < length list
    → Listed list
    → (band : BeaconBand) × (get_elem? list p ≡ some band) × (band.index < length bands)
band_at p [] h l = absurd (omega arith)
band_at zero (band ∷ list) h l = (band, refl, l.0)
band_at (suc p) (band ∷ list) h l = band_at p list (omega arith) l.1

position :
    (band : BeaconBand) (list : List BeaconBand)
    → In band list
    → (p : ℕ) × (p < length list) × (get_elem? list p ≡ some band)
position band [] m = absurd m
position band (b ∷ list) (inl q) = (0, omega arith, ap some (sym q))
position band (b ∷ list) (inr m) =
    let (p, h, e) = position band list m in (suc p, omega (arith, h), e)

ObservesAll-left :
    (band : BeaconBand) (calls more : List SlotCalls)
    → ObservesAll band calls
    → ObservesAll band (calls ++ more)
ObservesAll-left band calls more h index i =
    let (c, m, e, f, n, k) = h index i in (c, In-append_left c calls more m, e, f, n, k)

ObservesAll-right :
    (band : BeaconBand) (calls more : List SlotCalls)
    → ObservesAll band more
    → ObservesAll band (calls ++ more)
ObservesAll-right band calls more h index i =
    let (c, m, e, f, n, k) = h index i in (c, In-append_right c calls more m, e, f, n, k)

-- `k` cycles, on the bands from the present one on, without passing the end of their list.
abbrev IsStretch : (k : ℕ) → Scheduler → List SlotCalls × Scheduler → Type 0
IsStretch k s (calls, last) =
    (length calls ≡ k * slots_per_cycle)
    × (last.bands ≡ s.bands)
    × (last.slots_on_band ≡ 0)
    × (last.band_index ≡ (if ltb (s.band_index + k) (length s.bands) then s.band_index + k else 0))
    × ((p : ℕ) (band : BeaconBand)
        → s.band_index ≤ p
        → p < s.band_index + k
        → get_elem? s.bands p ≡ some band
        → ObservesAll band calls)

-- A first cycle in front of a stretch.
IsStretch-suc :
    (k : ℕ) (s next last : Scheduler) (band : BeaconBand) (calls more : List SlotCalls)
    → get_elem? s.bands s.band_index ≡ some band
    → s.band_index + suc k ≤ length s.bands
    → ObservesAll band calls
    → length calls ≡ slots_per_cycle
    → next.bands ≡ s.bands
    → next.band_index ≡ (if ltb (s.band_index + 1) (length s.bands) then s.band_index + 1 else 0)
    → IsStretch k next (more, last)
    → IsStretch (suc k) s (calls ++ more, last)
IsStretch-suc k s next last band calls more found room heard long same index (n, b, o, i, h) =
    let size : length next.bands ≡ length s.bands = ap length same in
    (
      omega (arith, long, n, length-append calls more),
      b ∙ same,
      o,
      grind (arith, index, i, size, room),
      λ p other low high e. elim (Bool-cases (p == s.band_index)) [
        | inl q ↦
            let here : some other ≡ some band =
              sym e ∙ ap (λ j. get_elem? s.bands j) ((==_iff p s.band_index).0 q) ∙ found in
            let same_band : band ≡ other = ground (arith, here) in
            ObservesAll-left other calls more (subst (λ x. ObservesAll x calls) same_band heard)
        | inr q ↦
            let beyond : s.band_index + 1 ≤ p = grind (arith, q, low) in
            let inside : s.band_index + 1 < length s.bands = omega (arith, beyond, high, room) in
            let after : next.band_index ≡ s.band_index + 1 = grind (arith, index, inside) in
            ObservesAll-right other calls more (
              h p other (omega (arith, after, beyond)) (omega (arith, after, high))
                (ap (λ l. get_elem? l p) same ∙ e))
      ],
    )

-- Stretches of cycles, from their numbers.
run_slots-IsStretch :
    (error : Text) (k slot_start : ℕ) (results : List (Option Detection)) (s : Scheduler)
    → Listed s.bands
    → s.slots_on_band ≡ 0
    → s.band_index < length s.bands
    → s.band_index + k ≤ length s.bands
    → length results ≡ k * slots_per_cycle
    → IsStretch k s (run_slots error slot_start results s)
run_slots-IsStretch error zero slot_start [] s l o h room n =
    subst (IsStretch zero s) (sym (run_slots-nil error slot_start s))
      (refl, refl, o, grind (arith, h), λ p other low high e. absurd (omega (arith, low, high)))
run_slots-IsStretch error zero slot_start (r ∷ results) s l o h room n = absurd (omega (arith, n))
run_slots-IsStretch error (suc k) slot_start results s l o h room n =
    let a = take slots_per_cycle results in
    let b = drop slots_per_cycle results in
    let few : length a ≡ slots_per_cycle = omega (arith, n, length-take slots_per_cycle results) in
    let (band, found, listed) = band_at s.band_index s.bands h l in
    let (calls, next) = run_slots error slot_start a s in
    let (heard, _, long, _, _, empty, same, index) =
      run_slots-cycle error band slot_start a s found listed o few in
    let index : next.band_index
        ≡ (if ltb (s.band_index + 1) (length s.bands) then s.band_index + 1 else 0) =
      index ∙ next_index s.band_index (length s.bands) h in
    let size : length next.bands ≡ length s.bands = ap length same in
    let start = slot_start + length a * slot_seconds in
    let (more, last) = run_slots error start b next in
    let rest : IsStretch k next (more, last) =
      run_slots-IsStretch error k start b next (subst Listed (sym same) l) empty
        (grind (arith, index, size, h)) (grind (arith, index, size, h, room))
        (omega (arith, n, length-drop slots_per_cycle results)) in
    subst (IsStretch (suc k) s)
      (sym (
          run_slots-append error slot_start a b s next last calls more refl
            (omega (arith, long, few)) refl)
        ∙ ap (λ r. run_slots error slot_start r s) (take-drop slots_per_cycle results))
      (IsStretch-suc k s next last band calls more found room heard long same index rest)

abbrev pub IsPass : Scheduler → List SlotCalls × Scheduler → Type 0
IsPass s (calls, last) =
    ((band : BeaconBand) → In band s.bands → ObservesAll band calls)
    × IsTuned s calls
    × (length calls ≡ length s.bands * slots_per_cycle)
    × (last.slots_on_band ≡ 0)
    × (last.band_index ≡ s.band_index)

-- A pass of one cycle for each band of the scheduler, which all are bands of the catalog, observes each
-- of the 18 beacons on the frequency of each of these bands, in the slot in which it sends there,
-- whatever band and time it starts with and whatever the detector finds. The receiver stands on the
-- observed frequency in every slot, where there is a callback that parks it; an observation is made in
-- every slot, and the pass ends at the start of the band that it began with.
pub run_slots-IsPass :
    (error : Text) (slot_start : ℕ) (results : List (Option Detection)) (s : Scheduler)
    → All (λ band. band.index < length bands) s.bands
    → s.slots_on_band ≡ 0
    → s.band_index < length s.bands
    → length results ≡ length s.bands * slots_per_cycle
    → IsPass s (run_slots error slot_start results s)
run_slots-IsPass error slot_start results s l o h n =
    let k = length s.bands - s.band_index in
    let a = take (k * slots_per_cycle) results in
    let b = drop (k * slots_per_cycle) results in
    let few : length a ≡ k * slots_per_cycle =
      omega (arith, n, length-take (k * slots_per_cycle) results) in
    let (calls, next) = run_slots error slot_start a s in
    let (long, same, empty, index, heard) =
      run_slots-IsStretch error k slot_start a s l o h (omega (arith, h)) few in
    let first : next.band_index ≡ 0 = grind (arith, index, h) in
    let size : length next.bands ≡ length s.bands = ap length same in
    let start = slot_start + length a * slot_seconds in
    let (more, last) = run_slots error start b next in
    let (long_on, _, empty_on, index_on, heard_on) =
      run_slots-IsStretch error s.band_index start b next (subst Listed (sym same) l) empty
        (omega (arith, first, size, h)) (omega (arith, first, size, h))
        (omega (arith, n, h, length-drop (k * slots_per_cycle) results)) in
    let joined : run_slots error slot_start results s ≡ (calls ++ more, last) =
      ap (λ r. run_slots error slot_start r s) (sym (take-drop (k * slots_per_cycle) results))
      ∙ run_slots-append error slot_start a b s next last calls more refl (omega (arith, long, few))
          refl in
    let all : (band : BeaconBand) → In band s.bands → ObservesAll band (calls ++ more) = λ band m.
      let (p, inside, e) = position band s.bands m in
      elim (Bool-cases (ltb p s.band_index)) [
        | inl q ↦ ObservesAll-right band calls more (
            heard_on p band (omega (arith, first)) (grind (arith, q, first))
              (ap (λ x. get_elem? x p) same ∙ e))
        | inr q ↦
            ObservesAll-left band calls more
              (heard p band (grind (arith, q)) (omega (arith, inside, h)) e)
      ] in
    let tuned : IsTuned s (calls ++ more) =
      subst (IsTuned s) (ap (λ r. r.0) joined) (run_slots-IsTuned error slot_start results s) in
    subst (IsPass s) (sym joined) (
      all,
      tuned,
      omega (arith, long, long_on, h, length-append calls more),
      empty_on,
      grind (arith, index_on, first, size, h),
    )
