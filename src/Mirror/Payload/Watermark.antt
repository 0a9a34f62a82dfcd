-- ===== src/Mirror/Payload/Watermark.antt =====
-- The cursor never passes a row that was not sent.
use ham_spectrum_analysis.Prelude.{
  max, ℕ, zero, suc, ap, Bool-cases, ltb→lt, ◌≤◌, ◌<◌, ◌≡◌, inl, inr, Bool, true, Option, List, [],
  ◌∷◌, In, length, take, arith, ltb, refl,
}
use ham_spectrum_analysis.Text.{Text}
use ham_spectrum_analysis.Mirror.Table.{
  Event, rows_after, max_id, IsAscending, In-rows_after, max_id-take-le, max_id-rows_after-le,
  In-take_of_le, rows_after-IsAscending,
}
use ham_spectrum_analysis.Mirror.Payload.{
  fetch_events_and_max, Database, Payload, TableName, callsign_events, occupancy_events, table_rows,
  table_frontier, scopes_set, is_active, clamp_batch, page, candidate, build_payload,
}

-- Both tables are in the order of their keys, which start at 1.
pub record IsStore (db : Database) : Type 0 where
  pub callsign : IsAscending 0 db.callsign_events
  pub occupancy : IsAscending 0 db.occupancy_events

abbrev pub sent : TableName → Payload → List Event
sent callsign_events payload = payload.callsign
sent occupancy_events payload = payload.occupancy

take_all : (n : ℕ) (rows : List Event) → length (take n rows) < n → take n rows ≡ rows
take_all zero rows h = absurd (omega arith)
take_all (suc n) [] h = refl
take_all (suc n) (r ∷ rows) h = ap (λ l. r ∷ l) (take_all n rows (omega arith))

frontier_safe :
    (rows : List Event) (watermark limit : ℕ)
    → IsAscending 0 rows
    → (r : Event) → In r rows
    → watermark < r.id
    → r.id ≤ table_frontier (take limit (rows_after watermark rows)) (max_id rows) limit true
    → In r (take limit (rows_after watermark rows))
unfolding table_frontier
frontier_safe rows watermark limit asc r m new_ reached =
    let rest = rows_after watermark rows in
    let waits : In r rest = In-rows_after watermark r rows new_ m in
    elim (Bool-cases (ltb (length (take limit rest)) limit)) [
      | inl short ↦ rw (take_all limit rest (ltb→lt _ _ short)) waits
      | inr full ↦
          In-take_of_le 0 limit r rest (rows_after-IsAscending 0 watermark rows asc) waits
            (rw full at reached)
    ]

-- The two cursors that a payload holds, and what it sends of each table, over the two tests.
candidate_le_callsign : (active : Bool) (a b w : ℕ) → candidate true active a b w ≤ a
unfolding candidate
candidate_le_callsign active a b w = ground arith

candidate_le_occupancy : (active : Bool) (a b w : ℕ) → candidate active true a b w ≤ b
unfolding candidate
candidate_le_occupancy active a b w = ground arith

module _ (db : Database) (now : Text) (bundle : Option (List (Text × Text))) (mirror_name : Text)
    (watermark : ℕ) (scopes : List Text) (batch_size : ℕ) where
  abbrev pushed : Payload
  pushed = build_payload db now bundle mirror_name watermark scopes batch_size

  -- The cursor loses no row: with the tables in key order, every row of a table in scope whose key
  -- lies beyond the old cursor and not beyond the new one is in the payload.
  pub build_payload_no_skip :
      IsStore db
      → (table : TableName) → is_active table (scopes_set scopes) ≡ true
      → (r : Event) → In r (table_rows db table)
      → watermark < r.id
      → r.id ≤ pushed.meta.new_watermark
      → In r (sent table pushed)
  unfolding build_payload page table_rows
  build_payload_no_skip store callsign_events active r m new_ reached = rw active (
      frontier_safe db.callsign_events watermark (clamp_batch batch_size) store.callsign r m new_
        (omega (arith, candidate_le_callsign, rw active at reached)))
  build_payload_no_skip store occupancy_events active r m new_ reached = rw active (
      frontier_safe db.occupancy_events watermark (clamp_batch batch_size) store.occupancy r m new_
        (omega (arith, candidate_le_occupancy, rw active at reached)))

frontier-le :
    (rows : List Event) (watermark limit : ℕ)
    → table_frontier (take limit (rows_after watermark rows)) (max_id rows) limit true ≤ max_id rows
unfolding table_frontier
frontier-le rows watermark limit =
    ground
      (arith, max_id-take-le limit (rows_after watermark rows), max_id-rows_after-le watermark rows)

-- A new cursor is the old one, or a key that every table in scope has reached.
pub new_watermark-le :
    (db : Database) (now : Text) (bundle : Option (List (Text × Text))) (mirror_name : Text)
    (watermark : ℕ) (scopes : List Text) (batch_size : ℕ) (table : TableName)
    → is_active table (scopes_set scopes) ≡ true
    → (build_payload db now bundle mirror_name watermark scopes batch_size).meta.new_watermark
      ≤ max watermark (max_id (table_rows db table))
unfolding build_payload page fetch_events_and_max table_rows
new_watermark-le db now bundle mirror_name watermark scopes batch_size callsign_events active =
    rw active (
      omega (
        arith,
        candidate_le_callsign,
        frontier-le db.callsign_events watermark (clamp_batch batch_size),
      ))
new_watermark-le db now bundle mirror_name watermark scopes batch_size occupancy_events active =
    rw active (
      omega (
        arith,
        candidate_le_occupancy,
        frontier-le db.occupancy_events watermark (clamp_batch batch_size),
      ))
