-- ===== src/Mirror/Payload.antt =====
-- backend/app/external_mirrors/payload.py: what one push carries, and how far it moves the cursor.
pub mod Watermark
pub mod Pages
pub mod Progress
pub mod Stall
mod Tests
use ham_spectrum_analysis.Prelude.{
  ℕ, ◌+◌, min, max, Bool, true, false, not, ◌||◌, Option, none, some, List, [], ◌∷◌, length, take,
  any, is_empty, ltb, if◌then◌else◌,
}
use ham_spectrum_analysis.Text.{Text, codes, same, strip, lower, text_leb}
use ham_spectrum_analysis.Mirror.Table.{Event, rows_after, max_id}

abbrev pub default_batch_size : ℕ
default_batch_size = 5000

abbrev pub max_batch_size : ℕ
max_batch_size = 5000

abbrev pub app_version : Text
app_version = codes "0.15.0"

-- The two event tables of the store.
pub record Database : Type 0 where
  pub callsign_events : List Event
  pub occupancy_events : List Event

pub data TableName : Type 0 where
  callsign_events occupancy_events : TableName

unfoldable pub table_rows : Database → TableName → List Event
table_rows db callsign_events = db.callsign_events
table_rows db occupancy_events = db.occupancy_events

table_text : TableName → Text
table_text callsign_events = codes "callsign_events"
table_text occupancy_events = codes "occupancy_events"

-- One snapshot of the table: its next page, and its highest key. A name that is not one of the two
-- tables cannot be written, which is what `_VALID_EVENT_TABLES` guards.
unfoldable pub fetch_events_and_max : Database → TableName → ℕ → ℕ → List Event × ℕ
unfolding table_rows
fetch_events_and_max db table watermark limit =
    (take limit (rows_after watermark (table_rows db table)), max_id (table_rows db table))

unfoldable pub table_frontier : List Event → ℕ → ℕ → Bool → ℕ
table_frontier events db_max_id batch_size scope_active =
    if not scope_active
    then db_max_id
    else if ltb (length events) batch_size
    then db_max_id
    else max_id events

-- A `set` of scopes, in the order of `sorted`.
insert_scope : Text → List Text → List Text
insert_scope s [] = s ∷ []
insert_scope s (t ∷ ts) =
    let rest = insert_scope s ts in
    if same s t then t ∷ ts else if text_leb s t then s ∷ t ∷ ts else t ∷ rest

requested_scopes : List Text → List Text
unfolding insert_scope
requested_scopes [] = []
requested_scopes (s ∷ scopes) =
    let rest = requested_scopes scopes in
    if is_empty s then rest else insert_scope (lower (strip s)) rest

-- With no scope configured both tables are sent.
unfoldable pub scopes_set : List Text → List Text
unfolding requested_scopes
scopes_set scopes =
    let asked = requested_scopes scopes in
    if is_empty asked then codes "callsign_events" ∷ codes "occupancy_events" ∷ [] else asked

unfoldable pub is_active : TableName → List Text → Bool
unfolding table_text
is_active table scopes = any (same (table_text table)) scopes

pub record Meta : Type 0 where
  pub ts : Text
  pub app_version : Text
  pub mirror_name : Text
  pub previous_watermark : ℕ
  pub new_watermark : ℕ
  pub scopes : List Text
  pub batch_size : ℕ

-- The snapshot bundle is the JSON text of each endpoint by its name.
pub record Payload : Type 0 where
  pub meta : Meta
  pub callsign : List Event
  pub occupancy : List Event
  pub callsign_count : ℕ
  pub occupancy_count : ℕ
  pub snapshots : List (Text × Text)

-- `max(1, min(int(batch_size), MAX_BATCH_SIZE))`; a negative size is 0 here, and gives 1 as well.
abbrev pub clamp_batch : ℕ → ℕ
clamp_batch n = max 1 (min n max_batch_size)

-- A table that is not in scope is not read.
unfoldable pub page : Database → TableName → ℕ → ℕ → Bool → List Event × ℕ
unfolding fetch_events_and_max
page db table watermark limit active =
    if active then fetch_events_and_max db table watermark limit else ([], 0)

-- The smaller frontier of the active tables, or the old cursor if there is none.
unfoldable pub candidate : Bool → Bool → ℕ → ℕ → ℕ → ℕ
candidate true true cs_frontier oc_frontier watermark = min cs_frontier oc_frontier
candidate true false cs_frontier oc_frontier watermark = cs_frontier
candidate false true cs_frontier oc_frontier watermark = oc_frontier
candidate false false cs_frontier oc_frontier watermark = watermark

-- `build_snapshot_bundle` is given by its outcome: `none` when it raised.
unfoldable pub build_payload :
    Database → Text → Option (List (Text × Text)) → Text → ℕ → List Text → ℕ → Payload
build_payload db now bundle mirror_name last_watermark scopes batch_size =
    let limit = clamp_batch batch_size in
    let asked = scopes_set scopes in
    let callsign_active = is_active callsign_events asked in
    let occupancy_active = is_active occupancy_events asked in
    let (cs, cs_max) = page db callsign_events last_watermark limit callsign_active in
    let (oc, oc_max) = page db occupancy_events last_watermark limit occupancy_active in
    let cs_frontier = table_frontier cs cs_max limit callsign_active in
    let oc_frontier = table_frontier oc oc_max limit occupancy_active in
    record {
      meta = record {
        ts = now;
        app_version = app_version;
        mirror_name = mirror_name;
        previous_watermark = last_watermark;
        new_watermark =
            max last_watermark
              (candidate callsign_active occupancy_active cs_frontier oc_frontier last_watermark);
        scopes = asked;
        batch_size = limit;
      };
      callsign = cs;
      occupancy = oc;
      callsign_count = length cs;
      occupancy_count = length oc;
      snapshots = elim bundle [ none ↦ [] | some b ↦ b ];
    }

pub has_new_data : Payload → Bool
has_new_data payload = ltb 0 payload.callsign_count || ltb 0 payload.occupancy_count
