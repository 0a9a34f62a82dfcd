-- ===== src/Retention/Tables/Newest.antt =====
-- Which rows are left when the newest are kept.
use ham_spectrum_analysis.Prelude.{
  ℕ, ◌+◌, ◌-◌, ◌≡◌, ◌≤◌, ◌<◌, ◌↔◌, refl, sym, ap, subst, min, Bool, true, false, List, length, take,
  In, Distinct, length-le_of_In, length-take, any-==_iff, leb, arith,
}
use ham_spectrum_analysis.Text.{text_leb}
use ham_spectrum_analysis.Retention.Tables.{
  EventRow, EventTables, Entry, ids_of, member, by_timestamp, newest_entries, keys_of, without_ids,
  get_all_events_and_keep_newest, delete_events_by_ids,
}
use ham_spectrum_analysis.Retention.Tables.Batches.{delete_events_by_ids_lem, length-without_ids}
use ham_spectrum_analysis.Retention.Tables.Falling.{newest_entries-Falling, below-take}
use ham_spectrum_analysis.Retention.Tables.Keys.{
  In-by_timestamp_iff, length-by_timestamp, In-newest_entries_iff, length-newest_entries,
  In-without_ids_iff, In-ids_of, ids_of-In, same_row, without_ids-Distinct, length-ids_of,
}
use ham_spectrum_analysis.Retention.Tables.Entries.{
  In-keys_of, keys_of-In, newest_entries-Distinct, take-keys-Distinct, In-take_entries,
  length-keys_of,
}
use ham_spectrum_analysis.Retention.Tables.Marked.{
  table, marked, entry, In-marked, marked-In, is_same-eq, is_same_self, marked-Distinct,
  length-marked,
}

-- What is not among the keys that are not among some keys is among these.
In-left_iff :
    (keys : List ℕ) (x : EventRow) (rows : List EventRow)
    → In x (without_ids (ids_of (without_ids keys (by_timestamp rows))) rows)
      ↔ (In x rows × In x.id keys)
In-left_iff keys x rows =
    let sorted = by_timestamp rows in
    let gone = ids_of (without_ids keys sorted) in
    let stays : In x.id keys → ¬ In x.id gone = λ k m.
      let (y, n, q) = ids_of-In x.id (without_ids keys sorted) m in
      absurd (
        ground (
          arith,
          k,
          (In-without_ids_iff keys y sorted).0 n,
          any-==_iff x.id keys,
          ap (λ i. member i keys) q,
        )) in
    let leaves : In x rows → member x.id keys ≡ false → In x.id gone = λ m q.
      In-ids_of x (without_ids keys sorted)
        ((In-without_ids_iff keys x sorted).1 ((In-by_timestamp_iff x rows).1 m, q)) in
    ground (
      arith,
      stays,
      leaves,
      In-without_ids_iff gone x rows,
      any-==_iff x.id gone,
      any-==_iff x.id keys,
    )

module _ (keep : ℕ) (tables : EventTables)
    (unique : (t : Bool) → Distinct (ids_of (table t tables))) where
  kept : List Entry
  kept = take keep (newest_entries (marked tables))

  keys : Bool → List ℕ
  unfolding kept
  keys t = keys_of t kept

  left : Bool → List EventRow
  unfolding keys
  left t =
      without_ids (ids_of (without_ids (keys t) (by_timestamp (table t tables)))) (table t tables)

  -- A key that is kept is the key of a row of its table.
  keys-In : (t : Bool) (k : ℕ) → In k (keys t) → (x : EventRow) × In x (table t tables) × (x.id ≡ k)
  unfolding keys kept
  keys-In t k m =
      let (e, n, tag, q) = keys_of-In t k kept m in
      let inside =
        (In-newest_entries_iff e (marked tables)).0
          (In-take_entries keep e (newest_entries (marked tables)) n) in
      (e.row, marked-In t e tables inside (is_same-eq t e.is_occ tag), q)

  length-left : (t : Bool) → length (left t) ≡ length (keys t)
  unfolding left keys kept
  length-left t =
      let gone = ids_of (without_ids (keys t) (by_timestamp (table t tables))) in
      let distinct =
        take-keys-Distinct t keep (newest_entries (marked tables))
          (newest_entries-Distinct t (marked tables) (marked-Distinct t tables (unique t))) in
      let there : (k : ℕ) → In k (ids_of (left t)) → In k (keys t) = λ k m.
        let (x, n, q) = ids_of-In k (left t) m in
        subst (λ i. In i (keys t)) q ((In-left_iff (keys t) x (table t tables)).0 n).1 in
      let back : (k : ℕ) → In k (keys t) → In k (ids_of (left t)) = λ k m.
        let (x, n, q) = keys-In t k m in
        subst (λ i. In i (ids_of (left t))) q
          (In-ids_of x (left t) (
            (In-left_iff (keys t) x (table t tables)).1
              (n, subst (λ i. In i (keys t)) (sym q) m))) in
      omega (
        arith,
        length-ids_of (left t),
        length-le_of_In (ids_of (left t)) (keys t)
            (without_ids-Distinct gone (table t tables) (unique t)) there,
        length-le_of_In (keys t) (ids_of (left t)) distinct back,
      )

  length-left_le : (t : Bool) → length (left t) ≤ length (table t tables)
  unfolding left
  length-left_le t =
      length-without_ids (ids_of (without_ids (keys t) (by_timestamp (table t tables))))
        (table t tables)

  -- A row that goes is no newer than one that is left.
  left-newest :
      (t u : Bool) (x y : EventRow)
      → In x (left t)
      → In y (table u tables)
      → ¬ In y (left u)
      → text_leb y.timestamp x.timestamp ≡ true
  unfolding left keys kept
  left-newest t u x y m n gone =
      let sorted = newest_entries (marked tables) in
      let (inside, key) = (In-left_iff (keys t) x (table t tables)).0 m in
      let (e, i, tag, q) = keys_of-In t x.id kept key in
      let listed =
        marked-In t e tables
          ((In-newest_entries_iff e (marked tables)).0 (In-take_entries keep e sorted i))
          (is_same-eq t e.is_occ tag) in
      let out : ¬ In (entry u y) kept = λ k. gone (
        (In-left_iff (keys u) y (table u tables)).1
          (n, In-keys_of u (entry u y) kept k (is_same_self u))) in
      subst (λ r. text_leb y.timestamp r.timestamp ≡ true)
        (same_row e.row x (table t tables) (unique t) listed inside q)
        (below-take keep (entry u y) e sorted (newest_entries-Falling (marked tables))
          ((In-newest_entries_iff (entry u y) (marked tables)).1 (In-marked u y tables n)) out i)

  length-left_all :
      length (left true) + length (left false) ≡ min keep (length tables.occ + length tables.call)
  unfolding keys kept
  length-left_all = omega (
    arith,
    length-left true,
    length-left false,
    length-keys_of kept,
    length-take keep (newest_entries (marked tables)),
    length-newest_entries (marked tables),
    length-marked tables,
  )

-- The tables behind a selection and its deletion.
abbrev pub purge : (keep : ℕ) → EventTables → ℕ × EventTables
purge keep tables =
    let selection = get_all_events_and_keep_newest keep tables in
    delete_events_by_ids selection.occ_ids selection.call_ids tables

abbrev pub total : EventTables → ℕ
total tables = length tables.occ + length tables.call

-- The rows that go are counted, the others stay, and no row that goes is newer than one that stays.
abbrev pub IsPurged : (keep : ℕ) → EventTables → ℕ × EventTables → Type 0
IsPurged keep tables (deleted, after) =
    (total after ≡ keep)
    × (deleted ≡ total tables - keep)
    × ((t u : Bool) (x y : EventRow)
        → In x (table t after)
        → In y (table u tables)
        → ¬ In y (table u after)
        → text_leb y.timestamp x.timestamp ≡ true)

module _ (keep : ℕ) (tables : EventTables)
    (unique : (t : Bool) → Distinct (ids_of (table t tables))) (more : keep < total tables) where
  left_tables : EventTables
  left_tables = record { occ = left keep tables unique true; call = left keep tables unique false }

  purge_lem : purge keep tables ≡ (
    length tables.occ - length left_tables.occ + (length tables.call - length left_tables.call),
    left_tables,
  )
  unfolding left_tables left keys kept get_all_events_and_keep_newest
  purge_lem =
      let full : leb (length (by_timestamp tables.occ) + length (by_timestamp tables.call)) keep
          ≡ false =
        grind (arith, length-by_timestamp tables.occ, length-by_timestamp tables.call) in
      rw full (
        delete_events_by_ids_lem
          (ids_of (without_ids (keys keep tables unique true) (by_timestamp tables.occ)))
          (ids_of (without_ids (keys keep tables unique false) (by_timestamp tables.call))) tables)

  table-left : (t : Bool) → table t left_tables ≡ left keep tables unique t
  unfolding left_tables
  table-left true = refl
  table-left false = refl

  left-IsPurged : IsPurged keep tables (
    length tables.occ - length left_tables.occ + (length tables.call - length left_tables.call),
    left_tables,
  )
  unfolding left_tables
  left-IsPurged =
      let all_left = length-left_all keep tables unique in
      (
        omega (arith, all_left, more),
        omega (
          arith,
          all_left,
          more,
          length-left_le keep tables unique true,
          length-left_le keep tables unique false,
        ),
        λ t u x y m n gone.
            left-newest keep tables unique t u x y (subst (λ l. In x l) (table-left t) m) n
              (λ k. gone (subst (λ l. In y l) (sym (table-left u)) k)),
      )

-- Of two tables with distinct keys that hold more rows than are to be kept, the deletion of what
-- `get_all_events_and_keep_newest` selects leaves as many rows as are to be kept, counts the others,
-- and no row that goes, of either table, is newer than one that is left.
pub purge-IsPurged :
    (keep : ℕ) (tables : EventTables)
    → ((t : Bool) → Distinct (ids_of (table t tables)))
    → keep < total tables
    → IsPurged keep tables (purge keep tables)
purge-IsPurged keep tables unique more =
    subst (IsPurged keep tables) (sym (purge_lem keep tables unique more))
      (left-IsPurged keep tables unique more)
