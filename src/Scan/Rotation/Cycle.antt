-- ===== src/Scan/Rotation/Cycle.antt =====
-- A rotation that loops.
use native.Mathlib.Nat.{mod-eq_of_lt, mod-add-mod, mod-lt}
use ham_spectrum_analysis.Prelude.{
  ℕ, zero, suc, ◌+◌, ◌%◌, ◌≡◌, ◌<◌, refl, ap, sym, subst, ◌∙◌, true, false, some, List, ◌∷◌, length,
  get_elem?, arith, is_empty,
}
use ham_spectrum_analysis.Scan.Rotation.{
  RotationSlot, RotationConfig, ScanRotation, open_rotation, start, run,
}
use ham_spectrum_analysis.Scan.Rotation.Pass.{running_at, get_elem?-drop, round_on, run-suc}

-- What a rotation that loops visits from slot `i` on.
pub record IsCycle (config : RotationConfig) (rounds i : ℕ)
    (outcome : List RotationSlot × ScanRotation) : Type 0 where
  pub index : outcome.1 ≡ running_at config ((i + rounds) % length config.slots)
  pub count : length outcome.0 ≡ rounds
  pub visits :
      (k : ℕ)
      → k < rounds
      → get_elem? outcome.0 k ≡ get_elem? config.slots ((i + k) % length config.slots)

index-now :
    (config : RotationConfig) (i : ℕ) → i < length config.slots → (i + 0) % length config.slots ≡ i
index-now config i inside =
    ap (λ n. n % length config.slots) {x = i + 0} (omega arith) ∙ mod-eq_of_lt inside

index-later :
    (config : RotationConfig) (i k : ℕ)
    → ((i + 1) % length config.slots + k) % length config.slots ≡ (i + suc k) % length config.slots
index-later config i k =
    mod-add-mod (i + 1) (length config.slots) k
    ∙ ap (λ n. n % length config.slots) {x = i + 1 + k} (omega arith)

-- One more visit in front.
IsCycle-cons :
    (config : RotationConfig) (rounds i : ℕ) (x : RotationSlot)
    (outcome : List RotationSlot × ScanRotation)
    → i < length config.slots
    → get_elem? config.slots i ≡ some x
    → IsCycle config rounds ((i + 1) % length config.slots) outcome
    → IsCycle config (suc rounds) i (x ∷ outcome.0, outcome.1)
IsCycle-cons config rounds i x outcome inside found cycle = record {
  index = cycle.index ∙ ap (λ j. running_at config j) (index-later config i rounds);
  count = omega (arith, cycle.count);
  visits = visits;
}
  where
    visits :
        (k : ℕ)
        → k < suc rounds
        → get_elem? (x ∷ outcome.0) k ≡ get_elem? config.slots ((i + k) % length config.slots)
    visits zero h = sym (ap (get_elem? config.slots) (index-now config i inside) ∙ found)
    visits (suc k) h =
        cycle.visits k (omega arith) ∙ ap (get_elem? config.slots) (index-later config i k)

run-IsCycle :
    (config : RotationConfig) (rounds i : ℕ)
    → config.loop ≡ true
    → i < length config.slots
    → IsCycle config rounds i (run rounds (running_at config i))
unfolding run
run-IsCycle config zero i loops inside = record {
  index = ap (λ j. running_at config j) (sym (index-now config i inside));
  count = refl;
  visits = λ k h. absurd (omega arith);
}
run-IsCycle config (suc rounds) i loops inside =
    let (x, found, rest) = get_elem?-drop config.slots i inside in
    let j = (i + 1) % length config.slots in
    let step = round_on config i x found j refl (ground (arith, loops)) in
    subst (IsCycle config (suc rounds) i)
      (sym (run-suc rounds config i x (running_at config j) step))
      (IsCycle-cons config rounds i x (run rounds (running_at config j)) inside found
        (run-IsCycle config rounds j loops (mod-lt (i + 1) (omega arith))))

-- A rotation that is started with `loop` never stops: after any number of rounds it stands at the
-- slot with that number modulo the slots, and the k-th slot that it visited was slot k modulo the
-- slots.
pub start-run-loop :
    (config : RotationConfig) (rounds : ℕ)
    → config.loop ≡ true
    → is_empty config.slots ≡ false
    → IsCycle config rounds 0 (run rounds (start (open_rotation config)).1)
unfolding start
start-run-loop config rounds loops filled =
    rw filled (run-IsCycle config rounds 0 loops (ground (arith, filled)))
