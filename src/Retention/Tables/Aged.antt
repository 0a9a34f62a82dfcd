-- ===== src/Retention/Tables/Aged.antt =====
-- Which rows are left when the ones before a time are purged.
use ham_spectrum_analysis.Prelude.{
  ℕ, ◌+◌, ◌≡◌, ◌≤◌, ◌↔◌, inl, inr, refl, sym, ap, subst, Bool, true, false, List, [], ◌∷◌, ◌++◌,
  length, length-append, In, Distinct, any-==_iff, ◌==◌, ==_iff, arith, Bool-cases, ◌≢◌,
}
use ham_spectrum_analysis.Text.{Text}
use ham_spectrum_analysis.Retention.Tables.{
  EventRow, EventTables, Selection, ids_of, by_timestamp, before, older_than, union, with_ids,
  without_ids, get_purgeable_events, delete_events_by_ids,
}
use ham_spectrum_analysis.Retention.Tables.Batches.{delete_events_by_ids_lem}
use ham_spectrum_analysis.Retention.Tables.Keys.{
  In-by_timestamp_iff, In-without_ids_iff, In-ids_of, ids_of-In, same_row,
}
use ham_spectrum_analysis.Retention.Tables.Marked.{table}

union-nil : (ids : List ℕ) (k : ℕ) → In k (union ids []) ↔ In k ids
union-nil [] k = ground arith
union-nil (i ∷ ids) k =
    let twice : k ≡ i → In i (union ids []) → In k (union ids []) =
      λ q m. subst (λ j. In j (union ids [])) (sym q) m in
    ground (arith, union-nil ids k, union-nil ids i, any-==_iff i (union ids []), twice)

In-older_than_iff :
    (cutoff : Text) (x : EventRow) (rows : List EventRow)
    → In x (older_than cutoff rows) ↔ (In x rows × (before x.timestamp cutoff ≡ true))
In-older_than_iff cutoff x [] = ground arith
In-older_than_iff cutoff x (r ∷ rows) =
    let alike : x ≡ r → before x.timestamp cutoff ≡ before r.timestamp cutoff =
      λ q. ap (λ y. before y.timestamp cutoff) q in
    ground (arith, alike, In-older_than_iff cutoff x rows)

with_ids-length :
    (ids : List ℕ) (x : EventRow) (rows : List EventRow)
    → In x rows
    → In x.id ids
    → 1 ≤ length (with_ids ids rows)
with_ids-length ids x [] m k = absurd m
with_ids-length ids x (r ∷ rows) (inl q) k =
    let kept : In r.id ids = subst (λ y. In y.id ids) q k in
    ground (arith, kept, any-==_iff r.id ids)
with_ids-length ids x (r ∷ rows) (inr m) k = ground (arith, with_ids-length ids x rows m k)

abbrev aged_ids : Text → List EventRow → List ℕ
aged_ids cutoff rows = union (ids_of (by_timestamp (older_than cutoff rows))) []

aged_ids_iff :
    (cutoff : Text) (x : EventRow) (rows : List EventRow)
    → Distinct (ids_of rows)
    → In x rows
    → In x.id (aged_ids cutoff rows) ↔ (before x.timestamp cutoff ≡ true)
aged_ids_iff cutoff x rows d m = (there, back)
  where
    there : In x.id (aged_ids cutoff rows) → before x.timestamp cutoff ≡ true
    there k =
        let (y, n, q) =
          ids_of-In x.id (by_timestamp (older_than cutoff rows))
            ((union-nil (ids_of (by_timestamp (older_than cutoff rows))) x.id).0 k) in
        let (i, old) =
          (In-older_than_iff cutoff y rows).0
            ((In-by_timestamp_iff y (older_than cutoff rows)).0 n) in
        subst (λ r. before r.timestamp cutoff ≡ true) (same_row y x rows d i m q) old

    back : before x.timestamp cutoff ≡ true → In x.id (aged_ids cutoff rows)
    back h = (union-nil (ids_of (by_timestamp (older_than cutoff rows))) x.id).1 (
        In-ids_of x (by_timestamp (older_than cutoff rows)) (
          (In-by_timestamp_iff x (older_than cutoff rows)).1
            ((In-older_than_iff cutoff x rows).1 (m, h))))

-- The rows of a table that are left.
aged-left_iff :
    (cutoff : Text) (x : EventRow) (rows : List EventRow)
    → Distinct (ids_of rows)
    → In x (without_ids (aged_ids cutoff rows) rows)
      ↔ (In x rows × (before x.timestamp cutoff ≡ false))
aged-left_iff cutoff x rows d = ground (
  arith,
  In-without_ids_iff (aged_ids cutoff rows) x rows,
  aged_ids_iff cutoff x rows d,
  any-==_iff x.id (aged_ids cutoff rows),
)

-- Exactly the rows that are not before a time are left.
abbrev pub IsAged : (cutoff : Text) → EventTables → EventTables → Type 0
IsAged cutoff tables after =
    (t : Bool) (x : EventRow)
    → In x (table t after) ↔ (In x (table t tables) × (before x.timestamp cutoff ≡ false))

pub aged_selection : Text → EventTables → Selection
aged_selection cutoff tables =
    let occ_ids = aged_ids cutoff tables.occ in
    let call_ids = aged_ids cutoff tables.call in
    let events = with_ids occ_ids tables.occ ++ with_ids call_ids tables.call in
    record { events = events; occ_ids = occ_ids; call_ids = call_ids; count = length events }

pub get_purgeable_events-aged :
    (cutoff : Text) (days : ℕ) (tables : EventTables)
    → days ≢ 0
    → get_purgeable_events cutoff days 0 tables ≡ aged_selection cutoff tables
unfolding get_purgeable_events aged_selection
get_purgeable_events-aged cutoff days tables some_days =
    let limited : (days == 0) ≡ false = grind (arith, ==_iff days 0, some_days) in rw limited refl

module _ (cutoff : Text) (tables : EventTables)
    (unique : (t : Bool) → Distinct (ids_of (table t tables))) where
  rows_left : IsAged cutoff tables (record {
    occ = without_ids (aged_ids cutoff tables.occ) tables.occ;
    call = without_ids (aged_ids cutoff tables.call) tables.call;
  })
  rows_left true x = aged-left_iff cutoff x tables.occ (unique true)
  rows_left false x = aged-left_iff cutoff x tables.call (unique false)

  none_before :
      (t : Bool) (x : EventRow)
      → (aged_selection cutoff tables).count ≡ 0
      → In x (table t tables)
      → before x.timestamp cutoff ≡ true
      → ⊥
  unfolding aged_selection
  none_before t x e m h =
      let ids = aged_ids cutoff (table t tables) in
      let found =
        with_ids-length ids x (table t tables) m
          ((aged_ids_iff cutoff x (table t tables) (unique t) m).1 h) in
      let occ = with_ids (aged_ids cutoff tables.occ) tables.occ in
      let call = with_ids (aged_ids cutoff tables.call) tables.call in
      let few : length (with_ids ids (table t tables)) ≤ length occ + length call = at_most t in
      omega (arith, found, few, e, length-append occ call)
    where
      at_most :
          (t : Bool)
          → length (with_ids (aged_ids cutoff (table t tables)) (table t tables))
            ≤ length (with_ids (aged_ids cutoff tables.occ) tables.occ)
              + length (with_ids (aged_ids cutoff tables.call) tables.call)
      at_most true = omega arith
      at_most false = omega arith

  pub aged_selection-IsAged :
      let selection = aged_selection cutoff tables in
      IsAged cutoff tables (delete_events_by_ids selection.occ_ids selection.call_ids tables).1
  unfolding aged_selection
  aged_selection-IsAged =
      let occ_ids = aged_ids cutoff tables.occ in
      let call_ids = aged_ids cutoff tables.call in
      subst (IsAged cutoff tables)
        (sym (ap (λ r. r.1) (delete_events_by_ids_lem occ_ids call_ids tables))) rows_left

  pub aged_selection-empty : (aged_selection cutoff tables).count ≡ 0 → IsAged cutoff tables tables
  aged_selection-empty e t x =
      let later : In x (table t tables) → before x.timestamp cutoff ≡ false = λ m.
        elim (Bool-cases (before x.timestamp cutoff)) [
          | inl h ↦ absurd (none_before t x e m h)
          | inr h ↦ h
        ] in
      (λ m. (m, later m), λ k. k.0)
