-- ===== src/Scan/Rotation/Pass.antt =====
-- Which slots a run visits.
use native.Mathlib.Nat.{mod-eq_of_lt, mod_self}
use ham_spectrum_analysis.Prelude.{
  ℕ, zero, suc, ◌+◌, ◌%◌, ◌≡◌, ◌≤◌, ◌<◌, refl, ap, sym, ◌∙◌, true, false, not, ◌&&◌, some, List, [],
  ◌∷◌, length, drop, get_elem?, arith, is_empty, ◌==◌,
}
use ham_spectrum_analysis.Scan.Rotation.{
  RotationSlot, RotationConfig, ScanRotation, open_rotation, start, round_, run,
}

abbrev pub running_at : RotationConfig → ℕ → ScanRotation
running_at config i = record { config = config; current_index = i; running = true }

abbrev pub stopped_at : RotationConfig → ScanRotation
stopped_at config = record { config = config; current_index = 0; running = false }

pub get_elem?-drop :
    {A : Type 0} (xs : List A) (i : ℕ)
    → i < length xs
    → (x : A) × (get_elem? xs i ≡ some x) × (drop i xs ≡ x ∷ drop (suc i) xs)
get_elem?-drop [] i h = absurd (omega arith)
get_elem?-drop (x ∷ xs) zero h = (x, refl, refl)
get_elem?-drop (x ∷ xs) (suc i) h = get_elem?-drop xs i (omega arith)

drop-length : {A : Type 0} (xs : List A) → drop (length xs) xs ≡ []
drop-length [] = refl
drop-length (x ∷ xs) = drop-length xs

module _ (config : RotationConfig) (i : ℕ) (x : RotationSlot)
    (found : get_elem? config.slots i ≡ some x) where
  pub round_on :
      (j : ℕ)
      → (i + 1) % length config.slots ≡ j
      → not config.loop && j == 0 ≡ false
      → round_ (running_at config i) ≡ (some x, running_at config j)
  unfolding round_
  round_on j e goes = rw (found, e, goes) refl

  round_last :
      config.loop ≡ false
      → (i + 1) % length config.slots ≡ 0
      → round_ (running_at config i) ≡ (some x, stopped_at config)
  unfolding round_
  round_last once e = rw (found, e, once) refl

run_stopped : (rounds : ℕ) (r : ScanRotation) → r.running ≡ false → run rounds r ≡ ([], r)
unfolding run
run_stopped zero r off = refl
run_stopped (suc rounds) r off = rw off refl

pub run-suc :
    (rounds : ℕ) (config : RotationConfig) (i : ℕ) (x : RotationSlot) (r : ScanRotation)
    → round_ (running_at config i) ≡ (some x, r)
    → run (suc rounds) (running_at config i) ≡ (x ∷ (run rounds r).0, (run rounds r).1)
unfolding run
run-suc rounds config i x r e = rw e refl

-- A pass from slot `i` on, with a round for each slot that is left or more, visits them and stops.
run-drop :
    (config : RotationConfig) (left rounds i : ℕ)
    → config.loop ≡ false
    → i < length config.slots
    → i + left ≡ length config.slots
    → left ≤ rounds
    → run rounds (running_at config i) ≡ (drop i config.slots, stopped_at config)
run-drop config left zero i once inside e enough = absurd (omega arith)
run-drop config zero (suc rounds) i once inside e enough = absurd (omega arith)
run-drop config (suc zero) (suc rounds) i once inside e enough =
    let (x, found, rest) = get_elem?-drop config.slots i inside in
    let size : i + 1 ≡ length config.slots = omega arith in
    let stopped = round_last config i x found once (rw size (mod_self (length config.slots))) in
    let gone : drop (suc i) config.slots ≡ [] =
      ap (λ n. drop n config.slots) {x = suc i} (omega arith) ∙ drop-length config.slots in
    run-suc rounds config i x (stopped_at config) stopped
    ∙ ap (λ (p : List RotationSlot × ScanRotation). (x ∷ p.0, p.1))
        (run_stopped rounds (stopped_at config) refl)
    ∙ ap (λ l. (l, stopped_at config)) (sym (rest ∙ ap (λ l. x ∷ l) gone))
run-drop config (suc (suc left)) (suc rounds) i once inside e enough =
    let (x, found, rest) = get_elem?-drop config.slots i inside in
    let later : suc i < length config.slots = omega arith in
    let wraps_not : (i + 1) % length config.slots ≡ suc i =
      mod-eq_of_lt (omega arith) ∙ omega arith in
    run-suc rounds config i x (running_at config (suc i))
      (round_on config i x found (suc i) wraps_not (ground arith))
    ∙ ap (λ (p : List RotationSlot × ScanRotation). (x ∷ p.0, p.1))
        (run-drop config (suc left) rounds (suc i) once later (omega arith) (omega arith))
    ∙ ap (λ l. (l, stopped_at config)) (sym rest)

-- A rotation that is started without `loop` visits every slot once, in the order of the
-- configuration, and stops after the last dwell, back at the first slot: after as many rounds as
-- there are slots, and after any larger number.
pub start-run-once :
    (config : RotationConfig) (rounds : ℕ)
    → config.loop ≡ false
    → is_empty config.slots ≡ false
    → length config.slots ≤ rounds
    → run rounds (start (open_rotation config)).1 ≡ (config.slots, stopped_at config)
unfolding start
start-run-once config rounds once filled enough =
    let inside : 0 < length config.slots = ground (arith, filled) in
    rw filled (run-drop config (length config.slots) rounds 0 once inside (omega arith) enough)
