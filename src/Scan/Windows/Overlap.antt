-- ===== src/Scan/Windows/Overlap.antt =====
-- Two windows overlap exactly if a minute lies in both.
use ham_spectrum_analysis.Prelude.{ℕ, ◌+◌, ◌-◌, ◌%◌, ◌≡◌, ◌≢◌, ◌<◌, ◌↔◌, ◌⊎◌, inl, inr, true, arith}
use ham_spectrum_analysis.Scan.Windows.{time_in_window, windows_overlap}

-- The minutes of a day.
abbrev pub day : ℕ
day = 1440

-- A minute lies in a window exactly if, around the circle of the day's minutes, the way from the
-- window's start to the minute is shorter than the way to its end, for windows that do not start
-- where they end.
time_in_window_circular :
    (now start end : ℕ)
    → now < day
    → start < day
    → end < day
    → start ≢ end
    → (time_in_window now start end ≡ true)
      ↔ ((now + (day - start)) % day < (end + (day - start)) % day)
time_in_window_circular now start end hn hs he ne = ground arith

overlap_start :
    (s1 e1 s2 e2 : ℕ)
    → s1 < day
    → s2 < day
    → s1 ≢ e1
    → s2 ≢ e2
    → windows_overlap s1 e1 s2 e2 ≡ true
    → (time_in_window s1 s2 e2 ≡ true) ⊎ (time_in_window s2 s1 e1 ≡ true)
overlap_start s1 e1 s2 e2 h1 h2 n1 n2 o = ground arith

pub overlap_of_common :
    (s1 e1 s2 e2 t : ℕ)
    → t < day
    → time_in_window t s1 e1 ≡ true
    → time_in_window t s2 e2 ≡ true
    → windows_overlap s1 e1 s2 e2 ≡ true
overlap_of_common s1 e1 s2 e2 t ht h1 h2 = ground arith

-- The check of two windows, neither of which starts where it ends, is exact: they overlap exactly if
-- some minute of the day lies in both.
pub windows_overlap_iff :
    (s1 e1 s2 e2 : ℕ)
    → s1 < day
    → s2 < day
    → s1 ≢ e1
    → s2 ≢ e2
    → (windows_overlap s1 e1 s2 e2 ≡ true)
      ↔ ((t : ℕ) × (t < day) × (time_in_window t s1 e1 ≡ true) × (time_in_window t s2 e2 ≡ true))
windows_overlap_iff s1 e1 s2 e2 h1 h2 n1 n2 = (
  λ o. elim (overlap_start s1 e1 s2 e2 h1 h2 n1 n2 o) [
    | inl first ↦ (s1, h1, ground (arith, n1), first)
    | inr second ↦ (s2, h2, second, ground (arith, n2))
  ],
  λ (t, ht, in1, in2). overlap_of_common s1 e1 s2 e2 t ht in1 in2,
)
