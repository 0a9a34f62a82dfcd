-- ===== src/Mirror/Pusher/Tests.antt =====
-- A station with one mirror, a row that is inserted, and a push that is accepted.
use ham_spectrum_analysis.Prelude.{
  ℕ, ◌≡◌, ◌≤◌, refl, inl, true, none, some, List, [], ◌∷◌, In, arith,
}
use ham_spectrum_analysis.Text.{Text, codes, same, strip, lower, text_leb}
use ham_spectrum_analysis.Mirror.Table.{Event, max_id, IsAscending}
use ham_spectrum_analysis.Mirror.Payload.{
  TableName, callsign_events, occupancy_events, table_rows, fetch_events_and_max, table_frontier,
  scopes_set, is_active, page, candidate, build_payload,
}
use ham_spectrum_analysis.Mirror.Http.{PushResult, status_message}
use ham_spectrum_analysis.Mirror.Repository.Model.{ExternalMirror, get, get_locked, log_event, list}
use ham_spectrum_analysis.Mirror.Repository.Bookkeeping.{update_after_push, after_push}
use ham_spectrum_analysis.Mirror.Pusher.{
  Env, Pusher, is_due, skip_push, book_push, push_one, tick_once,
}
use ham_spectrum_analysis.Mirror.Pusher.Replication.{
  World, insert_row, push_to, insert, push, start, later, IsLogged,
}
use ham_spectrum_analysis.Mirror.Pusher.Replication.Delivery.{Reach-Delivered}

abbrev mirror : ExternalMirror
mirror = record {
  id = 4;
  name = codes "site";
  endpoint_url = codes "https://example.org/ingest.php";
  auth_token_hash = codes "hash";
  enabled = true;
  push_interval_seconds = 300;
  data_scopes = [];
  retention_days = none;
  last_push_at = none;
  last_push_status = none;
  last_push_watermark = 0;
  consecutive_failures = 2;
  auto_disabled_at = none;
  created_at = codes "t0";
  created_by = codes "admin";
  updated_at = none;
  display_name = none;
}

abbrev row : ℕ → Event
row n = record { id = n; columns = [] }

abbrev pusher : List (ℕ × Text) → ExternalMirror → Pusher
pusher tokens m = record {
  repo = record {
    rows = record { mirror = m; auth_token_ciphertext = none } ∷ [];
    seq = 4;
    audit = [];
    audit_seq = 0;
    auto_disable_threshold = 5;
  };
  tokens = tokens;
  warned_missing_token = [];
}

abbrev world : World
world = record {
  db = record { callsign_events = row 1 ∷ []; occupancy_events = [] };
  seq = λ table. 2;
  pusher = pusher ((4, codes "secret") ∷ []) mirror;
  received = λ id table. [];
}

abbrev written : World
written = insert_row world occupancy_events []

abbrev accepted : PushResult
accepted = record {
  success = true;
  status_code = some 200;
  attempts = 1;
  error = none;
  response_body = none;
  elapsed_ms = 5;
}

abbrev env : Env
env = record {
  db = written.db;
  bundle = none;
  now = codes "t1";
  logged_at = codes "t1";
  elapsed_since = λ at. some 10;
  post = λ url payload token name. accepted;
}

abbrev pushed : World
pushed = push_to written env mirror true

abbrev mirror_after : ExternalMirror
mirror_after = record mirror {
  last_push_at = some (codes "t1");
  last_push_status = some (codes "ok");
  last_push_watermark = 1;
  consecutive_failures = 0;
  updated_at = some (codes "t1");
}

program : Unit {0}
unfolding build_payload page candidate table_frontier fetch_events_and_max table_rows scopes_set
    is_active same strip lower text_leb status_message update_after_push get get_locked log_event
    after_push is_due skip_push book_push push_one tick_once list
program = tt

world-IsAscending : (table : TableName) → IsAscending 0 (table_rows world.db table)
unfolding program
world-IsAscending callsign_events = omega arith
world-IsAscending occupancy_events = tt

max_id-world : (table : TableName) → max_id (table_rows world.db table) ≤ world.seq table
unfolding program
max_id-world callsign_events = omega arith
max_id-world occupancy_events = omega arith

world-IsLogged : IsLogged world
world-IsLogged = record { ordered = world-IsAscending; counted = max_id-world }

found_before : get 4 written.pusher.repo ≡ some mirror
unfolding program
found_before = refl

found_after : get 4 pushed.pusher.repo ≡ some mirror_after
unfolding program
found_after = refl

fresh : (m : ExternalMirror) → get 4 world.pusher.repo ≡ some m → m.last_push_watermark ≡ 0
unfolding program
fresh m e = grind arith

in_scope : is_active callsign_events (scopes_set mirror_after.data_scopes) ≡ true
unfolding program
in_scope = refl

row_stands : In (row 1) (table_rows pushed.db callsign_events)
unfolding program
row_stands = inl refl

Reach-Delivered_example : In (row 1) (pushed.received 4 callsign_events)
Reach-Delivered_example =
    Reach-Delivered 4 world pushed world-IsLogged fresh
      (later (later start (insert occupancy_events []))
        (push env mirror true refl found_before (λ e. refl)))
      mirror_after found_after callsign_events in_scope (row 1) row_stands (omega arith)
