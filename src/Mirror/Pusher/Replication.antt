-- ===== src/Mirror/Pusher/Replication.antt =====
-- The station and its mirror server as one system: rows are written and deleted, pushes are made,
-- and the server stores the pages that it receives.
pub mod Store
pub mod Delivery
use ham_spectrum_analysis.Prelude.{
  ℕ, ◌+◌, ◌≡◌, ◌≢◌, ◌≤◌, ◌<◌, max, refl, inl, inr, Bool, true, false, Option, none, some, List, [],
  ◌∷◌, ◌++◌, ◌&&◌, ◌==◌, In, In-append_left, In-append_right, In-append_cases, arith, if◌then◌else◌,
}
use ham_spectrum_analysis.Text.{Text}
use ham_spectrum_analysis.Mirror.Table.{
  Event, max_id, IsAscending, lt_of_In, keep_rows, In-keep_rows, keep_rows-IsAscending,
  append-IsAscending, max_id-append, max_id-keep_rows,
}
use ham_spectrum_analysis.Mirror.Payload.{
  Database, TableName, callsign_events, occupancy_events, table_rows, scopes_set, is_active,
  default_batch_size,
}
use ham_spectrum_analysis.Mirror.Payload.Watermark.{
  IsStore, sent, build_payload_no_skip, new_watermark-le,
}
use ham_spectrum_analysis.Mirror.Repository.Model.{ExternalMirror, get}
use ham_spectrum_analysis.Mirror.Pusher.{Env, Pusher, payload_for, push_one}
use ham_spectrum_analysis.Mirror.Pusher.Push.{delivers, IsPushed, get-push_one, get-push_one_ne}

-- The store, its AUTOINCREMENT counters, the pusher, and what each mirror has received.
pub record World : Type 0 where
  pub db : Database
  pub seq : TableName → ℕ
  pub pusher : Pusher
  pub received : (mirror_id : ℕ) → TableName → List Event

-- A value of its own for one table, or for one mirror.
abbrev pub is_table : TableName → TableName → Bool
is_table callsign_events callsign_events = true
is_table occupancy_events occupancy_events = true
is_table _ _ = false

abbrev pub with_rows : Database → TableName → List Event → Database
with_rows db callsign_events rows = record db { callsign_events = rows }
with_rows db occupancy_events rows = record db { occupancy_events = rows }

abbrev pub new_row : World → TableName → List (Text × Text) → Event
new_row w table columns = record { id = w.seq table + 1; columns = columns }

abbrev pub insert_row : World → TableName → List (Text × Text) → World
insert_row w table columns = record w {
  db = with_rows w.db table (table_rows w.db table ++ new_row w table columns ∷ []);
  seq = λ t. if is_table table t then w.seq t + 1 else w.seq t;
}

abbrev pub delete_events : World → TableName → (Event → Bool) → World
delete_events w table keep = record w {
  db = with_rows w.db table (keep_rows keep (table_rows w.db table));
}

-- A push, whose pages the server stores if they arrive.
abbrev pub push_to : World → Env → ExternalMirror → (arrived : Bool) → World
push_to w env mirror arrived = record w {
  pusher = (push_one env mirror w.pusher).1;
  received = λ id table.
      if arrived && id == mirror.id
      then w.received id table ++ sent table (payload_for env mirror)
      else w.received id table;
}

-- A 2xx answer says that the pages are stored; without one they may be stored or not.
pub data Step (w : World) : World → Type 0 where
  insert : (table : TableName) (columns : List (Text × Text)) → Step w (insert_row w table columns)
  delete : (table : TableName) (keep : Event → Bool) → Step w (delete_events w table keep)
  push :
      (env : Env) (mirror : ExternalMirror) (arrived : Bool)
      → env.db ≡ w.db
      → get mirror.id w.pusher.repo ≡ some mirror
      → (delivers env mirror w.pusher ≡ true → arrived ≡ true)
      → Step w (push_to w env mirror arrived)

pub data Reach (w : World) : World → Type 0 where
  start : Reach w w
  later : {u v : World} → Reach w u → Step u v → Reach w v

-- The tables are in key order below their counters.
pub record IsLogged (w : World) : Type 0 where
  pub ordered : (table : TableName) → IsAscending 0 (table_rows w.db table)
  pub counted : (table : TableName) → max_id (table_rows w.db table) ≤ w.seq table

-- What the mirror holds of a table: every row up to the cursor, which no new row can fall below.
pub record IsCovered (id cursor : ℕ) (w : World) (table : TableName) : Type 0 where
  pub reached : cursor ≤ w.seq table
  pub stored :
      (r : Event) → In r (table_rows w.db table) → r.id ≤ cursor → In r (w.received id table)

abbrev pub Covers : ℕ → World → Type 0
Covers id w =
    (m : ExternalMirror)
    → get id w.pusher.repo ≡ some m
    → (table : TableName) → is_active table (scopes_set m.data_scopes) ≡ true
    → IsCovered id m.last_push_watermark w table
