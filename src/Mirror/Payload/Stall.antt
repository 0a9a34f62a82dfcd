-- ===== src/Mirror/Payload/Stall.antt =====
-- Successive pushes of both tables once the callsign table is drained.
use ham_spectrum_analysis.Prelude.{ℕ, ◌≡◌, ◌≤◌, ◌∙◌, refl, ap, true, Option, List, [], ◌∷◌}
use ham_spectrum_analysis.Text.{Text}
use ham_spectrum_analysis.Mirror.Table.{max_id}
use ham_spectrum_analysis.Mirror.Payload.{
  Database, Payload, callsign_events, occupancy_events, scopes_set, is_active, build_payload,
}
use ham_spectrum_analysis.Mirror.Payload.Progress.{stalled}

-- What differs from one push to the next: the clock, and the snapshot bundle, which may fail.
abbrev pub Occasion : Type 0
Occasion = Text × Option (List (Text × Text))

-- The rows and the cursors of a payload are the same; its time and its snapshots may not be.
abbrev pub SameRows : Payload → Payload → Type 0
SameRows p q =
    (p.callsign ≡ q.callsign)
    × (p.occupancy ≡ q.occupancy)
    × (p.meta.previous_watermark ≡ q.meta.previous_watermark)
    × (p.meta.new_watermark ≡ q.meta.new_watermark)

module _ (db : Database) (mirror_name : Text) (scopes : List Text) (batch_size : ℕ) where
  abbrev pub push_on : Occasion → ℕ → Payload
  push_on (now, bundle) watermark =
      build_payload db now bundle mirror_name watermark scopes batch_size

  -- The cursor behind some successful pushes.
  abbrev pub cursor_behind : List Occasion → ℕ → ℕ
  cursor_behind [] watermark = watermark
  cursor_behind (o ∷ occasions) watermark =
      cursor_behind occasions (push_on o watermark).meta.new_watermark

  SameRows-occasion :
      (first later : Occasion) (w v : ℕ) → w ≡ v → SameRows (push_on later w) (push_on first v)
  unfolding build_payload
  SameRows-occasion first later w v e = (
    ap (λ x. (push_on first x).callsign) e,
    ap (λ x. (push_on first x).occupancy) e,
    e,
    ap (λ x. (push_on first x).meta.new_watermark) e,
  )

  cursor_stands :
      (watermark : ℕ)
      → is_active callsign_events (scopes_set scopes) ≡ true
      → is_active occupancy_events (scopes_set scopes) ≡ true
      → max_id db.callsign_events ≤ watermark
      → (occasions : List Occasion) → cursor_behind occasions watermark ≡ watermark
  cursor_stands watermark cs oc drained [] = refl
  cursor_stands watermark cs oc drained ((now, bundle) ∷ occasions) =
      ap (cursor_behind occasions)
        (stalled db now bundle mirror_name scopes batch_size watermark cs oc drained)
      ∙ cursor_stands watermark cs oc drained occasions

  -- With both tables in scope, once every callsign row has been sent, however many occupancy rows
  -- wait, the cursor never moves again: whatever the time and the snapshots of each push, after any
  -- number of successful pushes of the unchanged store the next one carries the same rows as the first
  -- one, so no occupancy row beyond its page is ever sent.
  pub build_payload_stall :
      (watermark : ℕ)
      → is_active callsign_events (scopes_set scopes) ≡ true
      → is_active occupancy_events (scopes_set scopes) ≡ true
      → max_id db.callsign_events ≤ watermark
      → (occasions : List Occasion) (first later : Occasion)
      → (cursor_behind occasions watermark ≡ watermark)
        × SameRows (push_on later (cursor_behind occasions watermark)) (push_on first watermark)
  build_payload_stall watermark cs oc drained occasions first later =
      let stands = cursor_stands watermark cs oc drained occasions in
      (stands, SameRows-occasion first later (cursor_behind occasions watermark) watermark stands)
