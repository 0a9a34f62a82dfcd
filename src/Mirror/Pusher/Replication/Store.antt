-- ===== src/Mirror/Pusher/Replication/Store.antt =====
-- Rows that are written and deleted lose the mirror nothing.
use ham_spectrum_analysis.Prelude.{
  ℕ, ap, sym, ◌≡◌, ◌≤◌, ◌<◌, refl, inl, inr, Bool, true, Bool-cases, List, [], ◌∷◌, ◌++◌, In,
  In-append_cases, arith, if◌then◌else◌,
}
use ham_spectrum_analysis.Text.{Text}
use ham_spectrum_analysis.Mirror.Table.{
  Event, keep_rows, In-keep_rows, keep_rows-IsAscending, append-IsAscending, max_id-append,
  max_id-keep_rows,
}
use ham_spectrum_analysis.Mirror.Payload.{
  Database, TableName, callsign_events, occupancy_events, table_rows,
}
use ham_spectrum_analysis.Mirror.Pusher.Replication.{
  World, is_table, with_rows, new_row, insert_row, delete_events, IsLogged, IsCovered,
}

-- One table of a store in which one table was changed.
table_rows-with_rows :
    (db : Database) (changed : TableName) (rows : List Event) (table : TableName)
    → table_rows (with_rows db changed rows) table
      ≡ (if is_table changed table then rows else table_rows db table)
unfolding table_rows
table_rows-with_rows db callsign_events rows callsign_events = refl
table_rows-with_rows db callsign_events rows occupancy_events = refl
table_rows-with_rows db occupancy_events rows callsign_events = refl
table_rows-with_rows db occupancy_events rows occupancy_events = refl

is_table_lem : (a b : TableName) → is_table a b ≡ true → a ≡ b
is_table_lem callsign_events callsign_events e = refl
is_table_lem occupancy_events occupancy_events e = refl
is_table_lem callsign_events occupancy_events e = ground arith
is_table_lem occupancy_events callsign_events e = ground arith

module _ (w : World) (log : IsLogged w) (changed : TableName) where
  pub insert-IsLogged : (columns : List (Text × Text)) → IsLogged (insert_row w changed columns)
  insert-IsLogged columns =
      let r = new_row w changed columns in
      let rows = table_rows w.db changed in
      let grown =
        append-IsAscending 0 rows r (log.ordered changed) (omega arith)
          (omega (arith, log.counted changed)) in
      record {
        ordered = λ t.
            rw (table_rows-with_rows w.db changed (rows ++ r ∷ []) t)
              (elim (Bool-cases (is_table changed t)) [
                | inl same ↦ rw same grown
                | inr other ↦ rw other (log.ordered t)
              ]);
        counted = λ t.
            rw (table_rows-with_rows w.db changed (rows ++ r ∷ []) t)
              (elim (Bool-cases (is_table changed t)) [
                | inl same ↦ rw same (
                    omega (
                      arith,
                      log.counted changed,
                      max_id-append rows r,
                      ap (λ x. w.seq x) (is_table_lem changed t same),
                    ))
                | inr other ↦ rw other (log.counted t)
              ]);
      }

  pub delete-IsLogged : (keep : Event → Bool) → IsLogged (delete_events w changed keep)
  delete-IsLogged keep =
      let rows = table_rows w.db changed in
      record {
        ordered = λ t.
            rw (table_rows-with_rows w.db changed (keep_rows keep rows) t)
              (elim (Bool-cases (is_table changed t)) [
                | inl same ↦ rw same (keep_rows-IsAscending 0 keep rows (log.ordered changed))
                | inr other ↦ rw other (log.ordered t)
              ]);
        counted = λ t.
            rw (table_rows-with_rows w.db changed (keep_rows keep rows) t)
              (elim (Bool-cases (is_table changed t)) [
                | inl same ↦ rw same (
                    omega (
                      arith,
                      log.counted changed,
                      max_id-keep_rows keep rows,
                      ap (λ x. w.seq x) (is_table_lem changed t same),
                    ))
                | inr other ↦ rw other (log.counted t)
              ]);
      }

-- A row below a new key is an old one.
In-of_append_lt :
    (rows : List Event) (r x : Event) → x.id < r.id → In x (rows ++ r ∷ []) → In x rows
In-of_append_lt rows r x lt m = elim (In-append_cases x rows (r ∷ []) m) [
  | inl old ↦ old
  | inr (inl e) ↦ absurd (omega (arith, ap (λ y. y.id) e))
  | inr (inr none_left) ↦ absurd none_left
]

-- A change of the store that adds no row below the cursor.
IsCovered-subset :
    (id cursor : ℕ) (w v : World) (table : TableName)
    → IsCovered id cursor w table
    → w.seq table ≤ v.seq table
    → ((r : Event) → In r (table_rows v.db table) → r.id ≤ cursor → In r (table_rows w.db table))
    → v.received ≡ w.received
    → IsCovered id cursor v table
IsCovered-subset id cursor w v table covered grown older kept = record {
  reached = omega (arith, covered.reached);
  stored = λ r m le. rw kept (covered.stored r (older r m le) le);
}

pub insert-IsCovered :
    (id cursor : ℕ) (w : World) (table changed : TableName) (columns : List (Text × Text))
    → IsCovered id cursor w table
    → IsCovered id cursor (insert_row w changed columns) table
insert-IsCovered id cursor w table changed columns covered =
    let rows = table_rows w.db changed in
    let r = new_row w changed columns in
    IsCovered-subset id cursor w (insert_row w changed columns) table covered (ground arith)
      (λ x m le. elim (Bool-cases (is_table changed table)) [
        | inl same ↦
            let m' : In x (rows ++ r ∷ []) =
              rw (table_rows-with_rows w.db changed (rows ++ r ∷ []) table, same) at m in
            let here = is_table_lem changed table same in
            rw (sym here)
              (In-of_append_lt rows r x (omega (arith, covered.reached, ap (λ t. w.seq t) here)) m')
        | inr other ↦ rw (table_rows-with_rows w.db changed (rows ++ r ∷ []) table, other) at m
      ])
      refl

pub delete-IsCovered :
    (id cursor : ℕ) (w : World) (table changed : TableName) (keep : Event → Bool)
    → IsCovered id cursor w table
    → IsCovered id cursor (delete_events w changed keep) table
delete-IsCovered id cursor w table changed keep covered =
    let rows = table_rows w.db changed in
    IsCovered-subset id cursor w (delete_events w changed keep) table covered (omega arith)
      (λ x m le. elim (Bool-cases (is_table changed table)) [
        | inl same ↦ rw (sym (is_table_lem changed table same)) (
            In-keep_rows keep x rows
              (rw (table_rows-with_rows w.db changed (keep_rows keep rows) table, same) at m))
        | inr other ↦ rw (table_rows-with_rows w.db changed (keep_rows keep rows) table, other) at m
      ])
      refl
