-- ===== src/Scan/Schedules/Disjoint.antt =====
-- No two enabled schedules share a minute, as long as none is enabled again by a toggle.
use ham_spectrum_analysis.Prelude.{
  ℕ, zero, suc, ◌≡◌, ◌<◌, refl, ap, sym, ◌∙◌, inl, inr, Bool, true, false, Bool-cases, Option, none,
  some, List, [], ◌∷◌, ◌++◌, In, All, All-append, ◌==◌, arith,
}
use ham_spectrum_analysis.Text.{Text, strip}
use ham_spectrum_analysis.Scan.Windows.{time_in_window}
use ham_spectrum_analysis.Scan.Windows.Overlap.{day, overlap_of_common}
use ham_spectrum_analysis.Scan.Schedules.{
  Schedule, Store, insert_by_start, sort_by_start, get_preset_schedules, save_preset_schedule,
  set_enabled, delete_rows, toggle_preset_schedule, delete_preset_schedule, window, Answer, created,
  meets, check_overlap, check_schedule, id_or, create_preset_schedule,
}

-- A minute lies in the window of a schedule.
abbrev pub contains : Option (ℕ × ℕ) → ℕ → Bool
contains none t = false
contains (some (s, e)) t = time_in_window t s e

abbrev pub covers : Schedule → ℕ → Bool
covers s t = contains (window s.start_hhmm s.end_hhmm) t

abbrev pub Apart : Schedule → Schedule → Type 0
Apart r s =
    r.enabled ≡ true → s.enabled ≡ true → (t : ℕ) → t < day → covers r t ≡ true → covers s t ≡ false

abbrev pub IsApart : List Schedule → Type 0
IsApart [] = Unit
IsApart (s ∷ rows) = All (λ r. Apart r s) rows × IsApart rows

In-insert_by_start :
    (s x : Schedule) (rows : List Schedule) → In x (s ∷ rows) → In x (insert_by_start s rows)
unfolding insert_by_start
In-insert_by_start s x [] m = m
In-insert_by_start s x (r ∷ rows) m = ground (arith, In-insert_by_start s x rows)

In-sort_by_start : (x : Schedule) (rows : List Schedule) → In x rows → In x (sort_by_start rows)
unfolding sort_by_start
In-sort_by_start x [] m = m
In-sort_by_start x (s ∷ rows) (inl e) = In-insert_by_start s x (sort_by_start rows) (inl e)
In-sort_by_start x (s ∷ rows) (inr m) =
    In-insert_by_start s x (sort_by_start rows) (inr (In-sort_by_start x rows m))

meets-apart :
    (w v : Option (ℕ × ℕ)) (rest : Answer) (t : ℕ)
    → t < day
    → meets w v rest ≡ created
    → (rest ≡ created) × (contains v t ≡ true → contains w t ≡ false)
meets-apart (some (a, b)) (some (c, d)) rest t ht ok =
    let clash = overlap_of_common a b c d t ht in
    (ground (arith, ok), λ h. ground (arith, ok, clash))
meets-apart none v rest t ht ok = ground arith
meets-apart (some x) none rest t ht ok = ground arith

check_overlap-apart :
    (new_window : Option (ℕ × ℕ)) (rows : List Schedule) (s : Schedule)
    → check_overlap new_window rows ≡ created
    → In s rows
    → s.enabled ≡ true
    → (t : ℕ) → t < day
    → covers s t ≡ true
    → contains new_window t ≡ false
check_overlap-apart w [] s ok m on t ht c = absurd m
check_overlap-apart w (x ∷ rows) s ok (inl e) on t ht c =
    let enabled : x.enabled ≡ true = ap (λ y. y.enabled) (sym e) ∙ on in
    let met : meets w (window x.start_hhmm x.end_hhmm) (check_overlap w rows) ≡ created =
      ground arith in
    (meets-apart w (window x.start_hhmm x.end_hhmm) (check_overlap w rows) t ht met).1
      (ap (λ y. covers y t) (sym e) ∙ c)
check_overlap-apart w (x ∷ rows) s ok (inr m) on t ht c =
    let met = meets-apart w (window x.start_hhmm x.end_hhmm) (check_overlap w rows) t ht in
    check_overlap-apart w rows s (ground arith) m on t ht c

IsApart-append :
    (rows : List Schedule) (s : Schedule)
    → IsApart rows
    → ((r : Schedule) → In r rows → Apart s r)
    → IsApart (rows ++ s ∷ [])
IsApart-append [] s h new_ = (tt, tt)
IsApart-append (x ∷ rows) s (apart, h) new_ = (
  All-append (λ r. Apart r x) rows (s ∷ []) apart (new_ x (inl refl), tt),
  IsApart-append rows s h (λ r m. new_ r (inr m)),
)

delete_rows-Apart :
    (id : ℕ) (s : Schedule) (rows : List Schedule)
    → All (λ r. Apart r s) rows
    → All (λ r. Apart r s) (delete_rows id rows)
delete_rows-Apart id s [] h = tt
delete_rows-Apart id s (r ∷ rows) h = ground (arith, delete_rows-Apart id s rows h.1)

delete_rows-IsApart : (id : ℕ) (rows : List Schedule) → IsApart rows → IsApart (delete_rows id rows)
delete_rows-IsApart id [] h = tt
delete_rows-IsApart id (s ∷ rows) h =
    ground (arith, delete_rows-Apart id s rows h.0, delete_rows-IsApart id rows h.1)

disable-Apart :
    (id : ℕ) (s : Schedule) (rows : List Schedule)
    → All (λ r. Apart r s) rows
    → All (λ r. Apart r s) (set_enabled id false rows)
disable-Apart id s [] h = tt
disable-Apart id s (r ∷ rows) h =
    let rest = disable-Apart id s rows h.1 in
    elim (Bool-cases (r.id == id)) [
      | inl hit ↦ rw hit ((λ off on t ht c. ground arith), rest)
      | inr miss ↦ rw miss (h.0, rest)
    ]

disabled-Apart :
    (s : Schedule) (rows : List Schedule) → s.enabled ≡ false → All (λ r. Apart r s) rows
disabled-Apart s [] off = tt
disabled-Apart s (r ∷ rows) off = ((λ on on' t ht c. ground arith), disabled-Apart s rows off)

disable-IsApart :
    (id : ℕ) (rows : List Schedule) → IsApart rows → IsApart (set_enabled id false rows)
disable-IsApart id [] h = tt
disable-IsApart id (s ∷ rows) h =
    let rest = disable-IsApart id rows h.1 in
    elim (Bool-cases (s.id == id)) [
      | inl hit ↦
          rw hit
            (disabled-Apart (record s { enabled = false }) (set_enabled id false rows) refl, rest)
      | inr miss ↦ rw miss (disable-Apart id s rows h.0, rest)
    ]

check_schedule-overlap :
    (preset_id : Option ℕ) (start_hhmm end_hhmm : Text) (store : Store)
    → check_schedule preset_id start_hhmm end_hhmm store ≡ created
    → check_overlap (window start_hhmm end_hhmm) (get_preset_schedules store) ≡ created
check_schedule-overlap none start_hhmm end_hhmm store ok = ground arith
check_schedule-overlap (some zero) start_hhmm end_hhmm store ok = ground arith
check_schedule-overlap (some (suc n)) start_hhmm end_hhmm store ok = ground arith

save-IsApart :
    (preset_id : ℕ) (start_hhmm end_hhmm : Text) (store : Store)
    → IsApart store.schedules
    → check_overlap (window start_hhmm end_hhmm) (get_preset_schedules store) ≡ created
    → IsApart (save_preset_schedule preset_id start_hhmm end_hhmm store).schedules
unfolding save_preset_schedule get_preset_schedules
save-IsApart preset_id start_hhmm end_hhmm store h ok =
    IsApart-append store.schedules _ h (λ r m on on' t ht c. elim (Bool-cases (covers r t)) [
      | inr free ↦ free
      | inl taken ↦
          let apart =
            check_overlap-apart (window start_hhmm end_hhmm) (sort_by_start store.schedules) r ok
              (In-sort_by_start r store.schedules m) on' t ht taken in
          absurd (ground (arith, c, apart))
    ])

create-IsApart :
    (preset_id : Option ℕ) (start_hhmm end_hhmm : Text) (store : Store)
    → IsApart store.schedules
    → IsApart (create_preset_schedule preset_id start_hhmm end_hhmm store).1.schedules
unfolding create_preset_schedule
create-IsApart preset_id start_hhmm end_hhmm store h =
    let checked = check_schedule-overlap preset_id (strip start_hhmm) (strip end_hhmm) store in
    let saved = save-IsApart (id_or preset_id) (strip start_hhmm) (strip end_hhmm) store h in
    ground (arith, h, checked, saved)

-- A request to the handlers; a toggle that enables is not among them, since it checks nothing.
pub data Call : Type 0 where
  creates : Option ℕ → (start_hhmm end_hhmm : Text) → Call
  disables deletes : ℕ → Call

abbrev pub apply : Call → Store → Store
apply (creates preset_id start_hhmm end_hhmm) store =
    (create_preset_schedule preset_id start_hhmm end_hhmm store).1
apply (disables id) store = (toggle_preset_schedule id false store).1
apply (deletes id) store = (delete_preset_schedule id store).1

abbrev pub apply_all : List Call → Store → Store
apply_all [] store = store
apply_all (c ∷ calls) store = apply_all calls (apply c store)

-- However schedules are created, disabled and deleted, accepted or refused, no minute of the day
-- lies in two enabled schedules, if that held at the start.
pub apply_all-IsApart :
    (calls : List Call) (store : Store)
    → IsApart store.schedules
    → IsApart (apply_all calls store).schedules
unfolding toggle_preset_schedule delete_preset_schedule
apply_all-IsApart [] store h = h
apply_all-IsApart (creates p s e ∷ calls) store h =
    apply_all-IsApart calls (apply (creates p s e) store) (create-IsApart p s e store h)
apply_all-IsApart (disables id ∷ calls) store h =
    apply_all-IsApart calls (apply (disables id) store) (disable-IsApart id store.schedules h)
apply_all-IsApart (deletes id ∷ calls) store h =
    apply_all-IsApart calls (apply (deletes id) store) (delete_rows-IsApart id store.schedules h)
