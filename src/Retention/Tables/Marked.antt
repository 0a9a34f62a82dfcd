-- ===== src/Retention/Tables/Marked.antt =====
-- The rows of both tables as entries with the mark of their table.
use ham_spectrum_analysis.Prelude.{
  suc, ◌+◌, ◌≡◌, inl, inr, refl, sym, ap, subst, ◌∙◌, Bool, true, false, List, [], ◌∷◌, ◌++◌,
  append-nil, length, length-append, In, In-append_left, In-append_right, In-append_cases, Distinct,
  arith,
}
use ham_spectrum_analysis.Retention.Tables.{
  EventRow, EventTables, Entry, ids_of, by_timestamp, tagged, is_same, keys_of,
}
use ham_spectrum_analysis.Retention.Tables.Keys.{
  In-by_timestamp_iff, length-by_timestamp, by_timestamp-Distinct,
}
use ham_spectrum_analysis.Retention.Tables.Entries.{keys_of-append, keys_of-tagged}

-- A table by its mark, and every row of both with its mark.
abbrev pub table : Bool → EventTables → List EventRow
table true tables = tables.occ
table false tables = tables.call

abbrev pub marked : EventTables → List Entry
marked tables = tagged true (by_timestamp tables.occ) ++ tagged false (by_timestamp tables.call)

abbrev pub entry : Bool → EventRow → Entry
entry t row = record { row = row; is_occ = t }

In-tagged :
    (t : Bool) (x : Entry) (rows : List EventRow)
    → In x (tagged t rows)
    → (x.is_occ ≡ t) × In x.row rows
In-tagged t x [] m = absurd m
In-tagged t x (r ∷ rows) (inl q) = (ap (λ y. y.is_occ) q, inl (ap (λ y. y.row) q))
In-tagged t x (r ∷ rows) (inr m) = let (e, n) = In-tagged t x rows m in (e, inr n)

tagged-In :
    (t : Bool) (row : EventRow) (rows : List EventRow)
    → In row rows
    → In (entry t row) (tagged t rows)
tagged-In t row [] m = absurd m
tagged-In t row (r ∷ rows) (inl q) = inl (ap (entry t) q)
tagged-In t row (r ∷ rows) (inr m) = inr (tagged-In t row rows m)

pub is_same-eq : (t u : Bool) → is_same t u ≡ true → u ≡ t
is_same-eq true true h = refl
is_same-eq true false h = h
is_same-eq false true h = sym h
is_same-eq false false h = refl

pub is_same_self : (t : Bool) → is_same t t ≡ true
is_same_self true = refl
is_same_self false = refl

-- Rows of a table and entries of its mark.
pub In-marked :
    (t : Bool) (row : EventRow) (tables : EventTables)
    → In row (table t tables)
    → In (entry t row) (marked tables)
In-marked true row tables m =
    In-append_left (entry true row) (tagged true (by_timestamp tables.occ))
      (tagged false (by_timestamp tables.call))
      (tagged-In true row (by_timestamp tables.occ) ((In-by_timestamp_iff row tables.occ).1 m))
In-marked false row tables m =
    In-append_right (entry false row) (tagged true (by_timestamp tables.occ))
      (tagged false (by_timestamp tables.call))
      (tagged-In false row (by_timestamp tables.call) ((In-by_timestamp_iff row tables.call).1 m))

pub marked-In :
    (t : Bool) (x : Entry) (tables : EventTables)
    → In x (marked tables)
    → x.is_occ ≡ t
    → In x.row (table t tables)
marked-In t x tables m h =
    elim (In-append_cases x (tagged true (by_timestamp tables.occ))
      (tagged false (by_timestamp tables.call)) m) [
        | inl n ↦
            let (e, k) = In-tagged true x (by_timestamp tables.occ) n in
            subst (λ u. In x.row (table u tables)) (sym e ∙ h)
              ((In-by_timestamp_iff x.row tables.occ).0 k)
        | inr n ↦
            let (e, k) = In-tagged false x (by_timestamp tables.call) n in
            subst (λ u. In x.row (table u tables)) (sym e ∙ h)
              ((In-by_timestamp_iff x.row tables.call).0 k)
      ]

keys_of-marked :
    (t : Bool) (tables : EventTables)
    → keys_of t (marked tables) ≡ ids_of (by_timestamp (table t tables))
keys_of-marked true tables =
    let occ = by_timestamp tables.occ in
    let call = by_timestamp tables.call in
    keys_of-append true (tagged true occ) (tagged false call)
    ∙ ap (λ l. l ++ keys_of true (tagged false call)) (keys_of-tagged true true occ)
    ∙ ap (λ l. ids_of occ ++ l) (keys_of-tagged true false call)
    ∙ append-nil (ids_of occ)
keys_of-marked false tables =
    let occ = by_timestamp tables.occ in
    let call = by_timestamp tables.call in
    keys_of-append false (tagged true occ) (tagged false call)
    ∙ ap (λ l. l ++ keys_of false (tagged false call)) (keys_of-tagged false true occ)
    ∙ keys_of-tagged false false call

pub marked-Distinct :
    (t : Bool) (tables : EventTables)
    → Distinct (ids_of (table t tables))
    → Distinct (keys_of t (marked tables))
marked-Distinct t tables d =
    subst Distinct (sym (keys_of-marked t tables)) (by_timestamp-Distinct (table t tables) d)

length-tagged : (t : Bool) (rows : List EventRow) → length (tagged t rows) ≡ length rows
length-tagged t [] = refl
length-tagged t (r ∷ rows) = ap suc (length-tagged t rows)

pub length-marked :
    (tables : EventTables) → length (marked tables) ≡ length tables.occ + length tables.call
length-marked tables =
    let occ = by_timestamp tables.occ in
    let call = by_timestamp tables.call in
    omega (
      arith,
      length-append (tagged true occ) (tagged false call),
      length-tagged true occ,
      length-tagged false call,
      length-by_timestamp tables.occ,
      length-by_timestamp tables.call,
    )
