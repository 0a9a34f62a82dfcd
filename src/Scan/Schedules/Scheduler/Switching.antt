-- ===== src/Scan/Schedules/Scheduler/Switching.antt =====
-- Which preset a tick applies, and when it applies none.
use ham_spectrum_analysis.Prelude.{
  ℕ, ◌≡◌, ◌<◌, refl, sym, subst, inl, inr, Bool, true, false, ◌&&◌, Option, none, some, List, [],
  ◌∷◌, In, All, arith, if◌then◌else◌,
}
use ham_spectrum_analysis.Scan.Windows.Overlap.{day}
use ham_spectrum_analysis.Scan.Schedules.{Schedule, window}
use ham_spectrum_analysis.Scan.Schedules.Disjoint.{contains, covers, Apart, IsApart}
use ham_spectrum_analysis.Scan.Schedules.Scheduler.{PresetScheduler, matches, target, same_id, tick}

matches_lem : (t : ℕ) (w : Option (ℕ × ℕ)) → matches t w ≡ contains w t
matches_lem t none = refl
matches_lem t (some x) = refl

Apart-of_In :
    (s x : Schedule) (rows : List Schedule) → All (λ r. Apart r x) rows → In s rows → Apart s x
Apart-of_In s x [] h m = absurd m
Apart-of_In s x (r ∷ rows) h (inl e) = subst (λ y. Apart y x) (sym e) h.0
Apart-of_In s x (r ∷ rows) h (inr m) = Apart-of_In s x rows h.1 m

target-covers :
    (t : ℕ) (rows : List Schedule) (s : Schedule)
    → t < day
    → IsApart rows
    → In s rows
    → s.enabled ≡ true
    → covers s t ≡ true
    → target t rows ≡ some s.preset_id
target-covers t [] s ht h m on c = absurd m
target-covers t (x ∷ rows) s ht h (inl e) on c =
    subst (λ y. target t (y ∷ rows) ≡ some s.preset_id) e
      (ground (arith, on, c, matches_lem t (window s.start_hhmm s.end_hhmm)))
target-covers t (x ∷ rows) s ht h (inr m) on c =
    let rest = target-covers t rows s ht h.1 m on c in
    let free = λ (on' : x.enabled ≡ true). Apart-of_In s x rows h.0 m on on' t ht c in
    let seen = matches_lem t (window x.start_hhmm x.end_hhmm) in ground (arith, rest, free, seen)

abbrev pub succeeds : Option Bool → Bool
succeeds (some ok) = ok
succeeds none = false

-- Where no two enabled schedules share any minute of the day, and an enabled one covers this minute, a
-- tick aims at that schedule's preset, whatever was active before and wherever the schedule stands
-- among the others. It applies the preset once, unless it is active and its rotation runs. Where
-- applying it succeeds, or would, the preset is the active one afterwards; where applying it fails or
-- raises, the one that was active stays.
pub tick-active :
    (t : ℕ) (rows : List Schedule) (s : Schedule) (rotation_running : Bool)
    (apply : ℕ → Option Bool) (scheduler : PresetScheduler)
    → t < day
    → IsApart rows
    → In s rows
    → s.enabled ≡ true
    → covers s t ≡ true
    → let (applied, after) = tick t rows rotation_running apply scheduler in
      (applied ≡ (
        if same_id (some s.preset_id) scheduler.active_preset_id && rotation_running
        then none
        else some s.preset_id))
      × (after.active_preset_id
          ≡ (if succeeds (apply s.preset_id) then some s.preset_id else scheduler.active_preset_id))
unfolding tick
tick-active t rows s running apply scheduler ht h m on c =
    let aim = target-covers t rows s ht h m on c in ground (arith, aim)
