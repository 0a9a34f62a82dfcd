-- ===== src/Scan/Windows.antt =====
-- The time windows of preset schedules: `_hhmm_to_minutes` and `_time_in_window` of
-- backend/app/scan/preset_scheduler.py, `_HHMM_RE` and `_windows_overlap` of backend/app/api/scan.py.
pub mod Times
pub mod Overlap
use ham_spectrum_analysis.Prelude.{
  ℕ, zero, suc, ◌+◌, ◌-◌, ◌*◌, Bool, true, false, not, ◌&&◌, ◌||◌, Option, none, some, List, [],
  ◌∷◌, any, is_empty, leb, ltb, ◌==◌, if◌then◌else◌,
}
use ham_spectrum_analysis.Text.{Text, strip}

abbrev pub is_digit : ℕ → Bool
is_digit c = leb b'0' c && leb c b'9'

-- `([01]\d|2[0-3]):[0-5]\d`, with the digits of ASCII: `\d` takes those of other scripts too, which are
-- not written. It is matched against text that was stripped,
-- so the line feed that `$` lets through cannot stand there.
unfoldable pub is_hhmm : Text → Bool
is_hhmm (a ∷ b ∷ c ∷ d ∷ e ∷ []) =
    (((a == b'0' || a == b'1') && is_digit b) || (a == b'2' && leb b'0' b && leb b b'3'))
    && c == b':'
    && leb b'0' d
    && leb d b'5'
    && is_digit e
is_hhmm _ = false

-- `hhmm.split(":")`
unfoldable pub split_colon : Text → List Text
split_colon [] = [] ∷ []
split_colon (c ∷ s) =
    let rest = split_colon s in
    if c == b':'
    then [] ∷ rest
    else elim rest [ [] ↦ (c ∷ []) ∷ [] | first ∷ others ↦ (c ∷ first) ∷ others ]

abbrev pub digits_from : ℕ → Text → Option ℕ
digits_from value [] = some value
digits_from value (c ∷ s) =
    let rest = digits_from (value * 10 + (c - b'0')) s in if is_digit c then rest else none

-- `int`, which also takes white space around the digits. A sign and underscores give none here:
-- no stored time has them, since each has matched `_HHMM_RE`.
unfoldable pub to_int : Text → Option ℕ
to_int s = if is_empty (strip s) then none else digits_from 0 (strip s)

abbrev pub add_parts : Option ℕ → Option ℕ → Option ℕ
add_parts (some hours) (some minutes) = some (hours * 60 + minutes)
add_parts _ _ = none

-- `h, m = hhmm.split(":")`, and both as numbers; `none` is a ValueError.
abbrev pub from_parts : List Text → Option ℕ
from_parts (h ∷ m ∷ []) = add_parts (to_int h) (to_int m)
from_parts _ = none

unfoldable pub hhmm_to_minutes : Text → Option ℕ
hhmm_to_minutes hhmm = from_parts (split_colon hhmm)

abbrev pub time_in_window : (now_min start_min end_min : ℕ) → Bool
time_in_window now_min start_min end_min =
    if leb start_min end_min
    then leb start_min now_min && ltb now_min end_min
    else leb start_min now_min || ltb now_min end_min

-- `_ranges` of `_windows_overlap`
abbrev pub ranges : ℕ → ℕ → List (ℕ × ℕ)
ranges s e = if ltb s e then (s, e) ∷ [] else (s, 1440) ∷ (0, e) ∷ []

abbrev pub windows_overlap : (s1 e1 s2 e2 : ℕ) → Bool
windows_overlap s1 e1 s2 e2 =
    any (λ a. any (λ b. ltb a.0 b.1 && ltb b.0 a.1) (ranges s2 e2)) (ranges s1 e1)
