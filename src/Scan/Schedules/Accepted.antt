-- ===== src/Scan/Schedules/Accepted.antt =====
-- What a schedule that is created looks like.
use ham_spectrum_analysis.Prelude.{
  ℕ, zero, suc, ◌≡◌, ◌≢◌, ◌<◌, refl, ap, sym, ◌∙◌, true, Option, none, some, arith,
}
use ham_spectrum_analysis.Text.{Text, same_iff, strip}
use ham_spectrum_analysis.Scan.Windows.{is_hhmm}
use ham_spectrum_analysis.Scan.Windows.Times.{is_hhmm-minutes, is_hhmm_injective}
use ham_spectrum_analysis.Scan.Schedules.{
  Store, window, created, check_schedule, create_preset_schedule,
}

-- A start and an end within the day, which differ.
pub record IsWindow (w : Option (ℕ × ℕ)) : Type 0 where
  pub start : ℕ
  pub end : ℕ
  pub parses : w ≡ some (start, end)
  pub start_in : start < 1440
  pub end_in : end < 1440
  pub differ : start ≢ end

valid-IsWindow : (s e : Text) → is_hhmm s ≡ true → is_hhmm e ≡ true → s ≢ e → IsWindow (window s e)
valid-IsWindow s e hs he ne =
    let (a, ea, la) = is_hhmm-minutes s hs in
    let (b, eb, lb) = is_hhmm-minutes e he in
    record {
      start = a;
      end = b;
      parses = rw (ea, eb) refl;
      start_in = la;
      end_in = lb;
      differ = λ same. ne (is_hhmm_injective s e a hs he ea (eb ∙ ap some (sym same)));
    }

check_schedule-valid :
    (preset_id : Option ℕ) (s e : Text) (store : Store)
    → check_schedule preset_id s e store ≡ created
    → (is_hhmm s ≡ true) × (is_hhmm e ≡ true) × (s ≢ e)
check_schedule-valid none s e store ok = ground arith
check_schedule-valid (some zero) s e store ok = ground arith
check_schedule-valid (some (suc n)) s e store ok = ground (arith, same_iff s e)

-- A request that is accepted has times that parse into two different minutes of the day.
create_preset_schedule-IsWindow :
    (preset_id : Option ℕ) (start_hhmm end_hhmm : Text) (store : Store)
    → (create_preset_schedule preset_id start_hhmm end_hhmm store).0 ≡ created
    → IsWindow (window (strip start_hhmm) (strip end_hhmm))
unfolding create_preset_schedule
create_preset_schedule-IsWindow preset_id s e store ok =
    let (hs, he, ne) = check_schedule-valid preset_id (strip s) (strip e) store (ground arith) in
    valid-IsWindow (strip s) (strip e) hs he ne
