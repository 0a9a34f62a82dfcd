-- ===== src/Mirror/Payload/Progress.antt =====
-- Successive pushes of one store: what reaches the receiver in the end, and when the cursor stands.
use ham_spectrum_analysis.Prelude.{
  ℕ, zero, suc, ◌+◌, ◌≤◌, ◌<◌, min, ◌≡◌, refl, inl, inr, true, false, Bool-cases, Option, List, [],
  ◌∷◌, In, length, take, arith, ltb, leb, leb→le,
}
use ham_spectrum_analysis.Text.{Text}
use ham_spectrum_analysis.Mirror.Table.{Event, rows_after, max_id, IsAscending, le_max_id}
use ham_spectrum_analysis.Mirror.Payload.{
  Database, Payload, TableName, callsign_events, occupancy_events, table_rows, fetch_events_and_max,
  table_frontier, scopes_set, is_active, clamp_batch, page, candidate, build_payload,
}
use ham_spectrum_analysis.Mirror.Payload.Watermark.{IsStore, sent, build_payload_no_skip}
use ham_spectrum_analysis.Mirror.Payload.Pages.{rows_after-above, take-IsAscending}

-- The first row of a page lies beyond the cursor.
lt_max_of_page :
    (a : ℕ) (rows : List Event) → IsAscending a rows → 1 ≤ length rows → a < max_id rows
lt_max_of_page a [] h n = absurd (omega arith)
lt_max_of_page a (r ∷ rows) h n = omega (arith, h.0)

rows_after-none :
    (watermark : ℕ) (rows : List Event) → max_id rows ≤ watermark → rows_after watermark rows ≡ []
rows_after-none watermark [] h = refl
rows_after-none watermark (r ∷ rows) h =
    ground (arith, rows_after-none watermark rows (omega arith))

take-nil : (n : ℕ) → take {A = Event} n [] ≡ []
take-nil zero = refl
take-nil (suc n) = refl

abbrev frontier_of : List Event → ℕ → ℕ → ℕ
frontier_of rows watermark limit =
    table_frontier (take limit (rows_after watermark rows)) (max_id rows) limit true

frontier_grows :
    (rows : List Event) (watermark limit : ℕ)
    → IsAscending 0 rows
    → 1 ≤ limit
    → watermark < max_id rows
    → watermark < frontier_of rows watermark limit
unfolding table_frontier
frontier_grows rows watermark limit asc some_room behind =
    let events = take limit (rows_after watermark rows) in
    elim (Bool-cases (ltb (length events) limit)) [
      | inl short ↦ rw short behind
      | inr full ↦ rw full (
          lt_max_of_page watermark events
            (take-IsAscending watermark limit _ (rows_after-above 0 watermark rows asc))
            (ground arith))
    ]

frontier_drained :
    (rows : List Event) (watermark limit : ℕ)
    → 1 ≤ limit
    → max_id rows ≤ watermark
    → frontier_of rows watermark limit ≤ watermark
unfolding table_frontier
frontier_drained rows watermark limit some_room done =
    rw (rows_after-none watermark rows done, take-nil limit) (ground arith)

module _ (db : Database) (now : Text) (bundle : Option (List (Text × Text))) (mirror_name : Text)
    (scopes : List Text) (batch_size : ℕ) where
  abbrev pub push : ℕ → Payload
  push watermark = build_payload db now bundle mirror_name watermark scopes batch_size

  -- The cursor after a number of successful pushes, with no other change to the store.
  abbrev pub cursor_after : ℕ → ℕ → ℕ
  cursor_after zero watermark = watermark
  cursor_after (suc pushes) watermark = cursor_after pushes (push watermark).meta.new_watermark

  next_grows : (watermark : ℕ) → watermark ≤ (push watermark).meta.new_watermark
  unfolding build_payload
  next_grows watermark = omega arith

  -- A row that the cursor passes in some number of pushes is in one of their payloads.
  sent_when_passed :
      IsStore db
      → (table : TableName) → is_active table (scopes_set scopes) ≡ true
      → (r : Event) → In r (table_rows db table)
      → (pushes watermark : ℕ) → watermark < r.id
      → r.id ≤ cursor_after pushes watermark
      → (k : ℕ) × In r (sent table (push (cursor_after k watermark)))
  sent_when_passed store table active r m zero watermark new_ passed = absurd (omega arith)
  sent_when_passed store table active r m (suc pushes) watermark new_ passed =
      let next = (push watermark).meta.new_watermark in
      elim (Bool-cases (leb r.id next)) [
        | inl now_ ↦ (
          0,
          build_payload_no_skip db now bundle mirror_name watermark scopes batch_size store table
              active r m new_ (leb→le _ _ now_),
        )
        | inr later ↦
            let (k, found) =
              sent_when_passed store table active r m pushes next (ground arith) passed in
            (suc k, found)
      ]

  pub stalled :
      (watermark : ℕ)
      → is_active callsign_events (scopes_set scopes) ≡ true
      → is_active occupancy_events (scopes_set scopes) ≡ true
      → max_id db.callsign_events ≤ watermark
      → (push watermark).meta.new_watermark ≡ watermark
  unfolding build_payload page candidate fetch_events_and_max table_rows
  stalled watermark cs oc drained =
      rw (cs, oc)
        (omega (
          arith,
          frontier_drained db.callsign_events watermark (clamp_batch batch_size) (omega arith)
              drained,
        ))

  next_single :
      IsStore db
      → (watermark : ℕ) → is_active callsign_events (scopes_set scopes) ≡ true
      → is_active occupancy_events (scopes_set scopes) ≡ false
      → min (watermark + 1) (max_id db.callsign_events) ≤ (push watermark).meta.new_watermark
  unfolding build_payload page candidate fetch_events_and_max table_rows
  next_single store watermark cs oc =
      rw (cs, oc)
        (ground (
          arith,
          frontier_grows db.callsign_events watermark (clamp_batch batch_size) store.callsign
              (omega arith),
        ))

  cursor_single :
      IsStore db
      → is_active callsign_events (scopes_set scopes) ≡ true
      → is_active occupancy_events (scopes_set scopes) ≡ false
      → (pushes watermark : ℕ)
      → min (watermark + pushes) (max_id db.callsign_events) ≤ cursor_after pushes watermark
  cursor_single store cs oc zero watermark = omega arith
  cursor_single store cs oc (suc pushes) watermark = omega (
    arith,
    next_single store watermark cs oc,
    next_grows watermark,
    cursor_single store cs oc pushes (push watermark).meta.new_watermark,
  )

  -- With the callsign table alone in scope, every one of its rows beyond the cursor is in the
  -- payload of some push, if pushes of the unchanged store go on succeeding.
  pub build_payload_drains :
      IsStore db
      → is_active callsign_events (scopes_set scopes) ≡ true
      → is_active occupancy_events (scopes_set scopes) ≡ false
      → (watermark : ℕ) (r : Event) → In r db.callsign_events
      → watermark < r.id
      → (k : ℕ) × In r (push (cursor_after k watermark)).callsign
  unfolding table_rows
  build_payload_drains store cs oc watermark r m new_ =
      sent_when_passed store callsign_events cs r m r.id watermark new_
        (omega (arith, cursor_single store cs oc r.id watermark, le_max_id r db.callsign_events m))
