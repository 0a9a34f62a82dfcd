-- ===== src/Mirror/Payload/Tests.antt =====
-- A store whose callsign table is drained while occupancy rows wait, and runs on it.
use ham_spectrum_analysis.Prelude.{
  ℕ, ◌≤◌, ◌≡◌, refl, inl, inr, true, false, none, some, List, [], ◌∷◌, In, length, map, arith,
  if◌then◌else◌,
}
use ham_spectrum_analysis.Text.{Text, codes, same, strip, lower, text_leb}
use ham_spectrum_analysis.Mirror.Table.{Event}
use ham_spectrum_analysis.Mirror.Payload.{
  Database, callsign_events, occupancy_events, table_rows, fetch_events_and_max, table_frontier,
  scopes_set, is_active, clamp_batch, page, candidate, build_payload, has_new_data,
}
use ham_spectrum_analysis.Mirror.Payload.Watermark.{IsStore, sent, build_payload_no_skip}
use ham_spectrum_analysis.Mirror.Payload.Pages.{IsPage, build_payload-IsPage}
use ham_spectrum_analysis.Mirror.Payload.Progress.{push, cursor_after, build_payload_drains}
use ham_spectrum_analysis.Mirror.Payload.Stall.{
  Occasion, SameRows, push_on, cursor_behind, build_payload_stall,
}

abbrev row : ℕ → Event
row n = record { id = n; columns = [] }

abbrev store : Database
store = record {
  callsign_events = row 1 ∷ row 2 ∷ [];
  occupancy_events = row 1 ∷ row 2 ∷ row 3 ∷ row 5 ∷ row 8 ∷ [];
}

store-IsStore : IsStore store
store-IsStore = omega arith

abbrev both : List Text
both = codes " Occupancy_events" ∷ [] ∷ codes "callsign_events" ∷ []

abbrev single : List Text
single = codes "callsign_events" ∷ []

program : Unit {0}
unfolding build_payload page candidate table_frontier fetch_events_and_max table_rows scopes_set
    is_active same strip lower text_leb has_new_data
program = tt

scopes_both : scopes_set both ≡ codes "callsign_events" ∷ codes "occupancy_events" ∷ []
unfolding program
scopes_both = refl

callsign_in_scope : is_active callsign_events (scopes_set both) ≡ true
unfolding program
callsign_in_scope = refl

occupancy_in_scope : is_active occupancy_events (scopes_set both) ≡ true
unfolding program
occupancy_in_scope = refl

-- Batches of two: both pages are full, and the cursor stops behind the slower table.
first_cursor : (push store [] none [] both 2 0).meta.new_watermark ≡ 2
unfolding program
first_cursor = refl

no_skip_example : In (row 2) (sent occupancy_events (push store [] none [] both 2 0))
unfolding program
no_skip_example =
    build_payload_no_skip store [] none [] 0 both 2 store-IsStore occupancy_events
      occupancy_in_scope (row 2) (inr (inl refl)) (omega arith) (omega arith)

page_example :
    IsPage
      (table_rows store occupancy_events)
      2
      (sent occupancy_events (push store [] none [] both 2 2))
    × (length (sent occupancy_events (push store [] none [] both 2 2))
        ≤ (if is_active occupancy_events (scopes_set both) then clamp_batch 2 else 0))
    × ((push store [] none [] both 2 2).callsign_count
        ≡ length (push store [] none [] both 2 2).callsign)
    × ((push store [] none [] both 2 2).occupancy_count
        ≡ length (push store [] none [] both 2 2).occupancy)
page_example = build_payload-IsPage store [] none [] 2 both 2 occupancy_events store-IsStore

-- Row 8 of the occupancy table waits behind a full page that is sent again and again.
abbrev occasions : List Occasion
occasions = (codes "t1", none) ∷ (codes "t2", some []) ∷ (codes "t3", none) ∷ []

stall_example :
    (cursor_behind store [] both 2 occasions 2 ≡ 2)
    × SameRows
        (push_on store [] both 2 (codes "t4", none) (cursor_behind store [] both 2 occasions 2))
        (push_on store [] both 2 (codes "t0", none) 2)
stall_example =
    build_payload_stall store [] both 2 2 callsign_in_scope occupancy_in_scope (omega arith)
      occasions (codes "t0", none) (codes "t4", none)

waiting_page : map (λ r. r.id) (push store [] none [] both 2 2).occupancy ≡ 3 ∷ 5 ∷ []
unfolding program
waiting_page = refl

callsign_alone : is_active callsign_events (scopes_set single) ≡ true
unfolding program
callsign_alone = refl

occupancy_left_out : is_active occupancy_events (scopes_set single) ≡ false
unfolding program
occupancy_left_out = refl

drains_example :
    (k : ℕ) × In
      (row 2)
      (push store [] none [] single 1 (cursor_after store [] none [] single 1 k 0)).callsign
drains_example =
    build_payload_drains store [] none [] single 1 store-IsStore callsign_alone occupancy_left_out 0
      (row 2) (inr (inl refl)) (omega arith)
