-- ===== src/Mirror/Payload/Pages.antt =====
-- What the pages of a payload hold.
use ham_spectrum_analysis.Prelude.{
  ℕ, refl, Bool, true, false, zero, suc, ◌≤◌, ◌≡◌, inl, inr, Option, List, [], ◌∷◌, In, length,
  take, length-take-le, arith, if◌then◌else◌,
}
use ham_spectrum_analysis.Text.{Text}
use ham_spectrum_analysis.Mirror.Table.{Event, rows_after, IsAscending, rows_after-IsAscending}
use ham_spectrum_analysis.Mirror.Payload.{
  Database, TableName, callsign_events, occupancy_events, table_rows, scopes_set, is_active, page,
  build_payload, clamp_batch,
}
use ham_spectrum_analysis.Mirror.Payload.Watermark.{IsStore, sent}

pub rows_after-above :
    (a watermark : ℕ) (rows : List Event)
    → IsAscending a rows
    → IsAscending watermark (rows_after watermark rows)
rows_after-above a watermark [] h = tt
rows_after-above a watermark (r ∷ rows) h = ground (
  arith,
  rows_after-above r.id watermark rows h.1,
  rows_after-IsAscending r.id watermark rows h.1,
)

pub take-IsAscending :
    (a n : ℕ) (rows : List Event) → IsAscending a rows → IsAscending a (take n rows)
take-IsAscending a zero rows h = tt
take-IsAscending a (suc n) [] h = tt
take-IsAscending a (suc n) (r ∷ rows) h = (h.0, take-IsAscending r.id n rows h.1)

In-take : (n : ℕ) (r : Event) (rows : List Event) → In r (take n rows) → In r rows
In-take zero r rows m = absurd m
In-take (suc n) r [] m = m
In-take (suc n) r (x ∷ rows) (inl e) = inl e
In-take (suc n) r (x ∷ rows) (inr m) = inr (In-take n r rows m)

In-of_In-rows_after :
    (watermark : ℕ) (r : Event) (rows : List Event) → In r (rows_after watermark rows) → In r rows
In-of_In-rows_after watermark r [] m = m
In-of_In-rows_after watermark r (x ∷ rows) m = ground (arith, In-of_In-rows_after watermark r rows)

-- A page as the receiver may rely on it: its rows are rows of the table, in strictly rising key
-- order beyond the cursor.
pub record IsPage (rows : List Event) (watermark : ℕ) (events : List Event) : Type 0 where
  pub from_table : (r : Event) → In r events → In r rows
  pub ordered : IsAscending watermark events

take-IsPage :
    (rows : List Event) (watermark n : ℕ)
    → IsAscending 0 rows
    → IsPage rows watermark (take (clamp_batch n) (rows_after watermark rows))
take-IsPage rows watermark n asc = record {
  from_table = λ r m. In-of_In-rows_after watermark r rows (In-take (clamp_batch n) r _ m);
  ordered = take-IsAscending watermark (clamp_batch n) _ (rows_after-above 0 watermark rows asc);
}

empty-IsPage : (rows : List Event) (watermark : ℕ) → IsPage rows watermark []
empty-IsPage rows watermark = record { from_table = λ r m. absurd m; ordered = tt }

page_lem :
    (db : Database) (table : TableName) (watermark n : ℕ) (active : Bool)
    → IsAscending 0 (table_rows db table)
    → IsPage (table_rows db table) watermark (page db table watermark (clamp_batch n) active).0
      × (length (page db table watermark (clamp_batch n) active).0
          ≤ (if active then clamp_batch n else 0))
unfolding page
page_lem db table watermark n true asc = (
  take-IsPage (table_rows db table) watermark n asc,
  length-take-le (clamp_batch n) (rows_after watermark (table_rows db table)),
)
page_lem db table watermark n false asc =
    (empty-IsPage (table_rows db table) watermark, omega arith)

-- Each page of a payload holds only rows of its table, in strictly rising key order and all beyond
-- the old cursor; it has at most the clamped batch size of them, and none if the table is not in
-- scope; and the two counts are the lengths of the pages.
pub build_payload-IsPage :
    (db : Database) (now : Text) (bundle : Option (List (Text × Text))) (mirror_name : Text)
    (watermark : ℕ) (scopes : List Text) (batch_size : ℕ) (table : TableName)
    → IsStore db
    → let p = build_payload db now bundle mirror_name watermark scopes batch_size in
      IsPage (table_rows db table) watermark (sent table p)
      × (length (sent table p)
          ≤ (if is_active table (scopes_set scopes) then clamp_batch batch_size else 0))
      × (p.callsign_count ≡ length p.callsign)
      × (p.occupancy_count ≡ length p.occupancy)
unfolding build_payload table_rows
build_payload-IsPage db now bundle mirror_name watermark scopes batch_size callsign_events store =
    let (ok, fits) =
      page_lem db callsign_events watermark batch_size
        (is_active callsign_events (scopes_set scopes)) store.callsign in
    (ok, fits, refl, refl)
build_payload-IsPage db now bundle mirror_name watermark scopes batch_size occupancy_events store =
    let (ok, fits) =
      page_lem db occupancy_events watermark batch_size
        (is_active occupancy_events (scopes_set scopes)) store.occupancy in
    (ok, fits, refl, refl)
