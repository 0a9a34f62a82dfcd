-- ===== src/Mirror/Pusher/Replication/Delivery.antt =====
-- Every event of a table in scope whose key the cursor has passed has been stored by the mirror.
use ham_spectrum_analysis.Prelude.{
  ℕ, ap, sym, ◌≡◌, ◌≢◌, ◌≤◌, ◌<◌, inl, inr, Bool, true, Bool-cases, some, ◌&&◌, ◌==◌, leb, In,
  In-append_left, In-append_right, arith,
}
use ham_spectrum_analysis.Mirror.Table.{Event, lt_of_In}
use ham_spectrum_analysis.Mirror.Payload.{
  TableName, callsign_events, occupancy_events, table_rows, scopes_set, is_active,
  default_batch_size,
}
use ham_spectrum_analysis.Mirror.Payload.Watermark.{
  IsStore, sent, build_payload_no_skip, new_watermark-le,
}
use ham_spectrum_analysis.Mirror.Repository.Model.{ExternalMirror, get}
use ham_spectrum_analysis.Mirror.Pusher.{Env, payload_for}
use ham_spectrum_analysis.Mirror.Pusher.Push.{delivers, IsPushed, get-push_one, get-push_one_ne}
use ham_spectrum_analysis.Mirror.Pusher.Replication.{
  World, push_to, Step, insert, delete, push, Reach, start, later, IsLogged, IsCovered, Covers,
}
use ham_spectrum_analysis.Mirror.Pusher.Replication.Store.{
  insert-IsLogged, delete-IsLogged, insert-IsCovered, delete-IsCovered,
}

-- What was received stays, for every mirror.
In-push_to :
    (w : World) (env : Env) (mirror : ExternalMirror) (arrived : Bool) (table : TableName) (id : ℕ)
    (r : Event)
    → In r (w.received id table)
    → In r ((push_to w env mirror arrived).received id table)
In-push_to w env mirror arrived table id r m = elim (Bool-cases (arrived && id == mirror.id)) [
  | inl hit ↦
      rw hit (In-append_left r (w.received id table) (sent table (payload_for env mirror)) m)
  | inr miss ↦ rw miss m
]

-- A push covers what the cursor newly passes, and keeps what it had passed before.
module _ (w : World) (log : IsLogged w) (env : Env) (mirror : ExternalMirror) (arrived : Bool)
    (reads : env.db ≡ w.db) (answered : delivers env mirror w.pusher ≡ true → arrived ≡ true)
    (table : TableName) (active : is_active table (scopes_set mirror.data_scopes) ≡ true) where
  env_rows : table_rows env.db table ≡ table_rows w.db table
  env_rows = ap (λ db. table_rows db table) reads

  env-IsStore : IsStore env.db
  unfolding table_rows
  env-IsStore =
      rw reads (record {
        callsign = log.ordered callsign_events;
        occupancy = log.ordered occupancy_events;
      })

  In-sent :
      (r : Event)
      → In r (table_rows w.db table)
      → mirror.last_push_watermark < r.id
      → r.id ≤ (payload_for env mirror).meta.new_watermark
      → In r (sent table (payload_for env mirror))
  In-sent r m new_ le =
      build_payload_no_skip env.db env.now env.bundle mirror.name mirror.last_push_watermark
        mirror.data_scopes default_batch_size env-IsStore table active r (rw env_rows m) new_ le

  cursor-le :
      mirror.last_push_watermark ≤ w.seq table
      → (payload_for env mirror).meta.new_watermark ≤ w.seq table
  cursor-le reached =
      let bound =
        new_watermark-le env.db env.now env.bundle mirror.name mirror.last_push_watermark
          mirror.data_scopes default_batch_size table active in
      omega (arith, rw env_rows at bound, log.counted table)

  In-received :
      arrived ≡ true
      → (r : Event) → In r (sent table (payload_for env mirror))
      → In r ((push_to w env mirror arrived).received mirror.id table)
  In-received hit r m =
      let here : (mirror.id == mirror.id) ≡ true = ground arith in
      rw (hit, here)
        (In-append_right r (w.received mirror.id table) (sent table (payload_for env mirror)) m)

  delivered-IsCovered :
      arrived ≡ true
      → IsCovered mirror.id mirror.last_push_watermark w table
      → IsCovered mirror.id
          (payload_for env mirror).meta.new_watermark
          (push_to w env mirror arrived)
          table
  delivered-IsCovered hit covered = record {
    reached = cursor-le covered.reached;
    stored = λ r m le. elim (Bool-cases (leb r.id mirror.last_push_watermark)) [
      | inl old ↦
          In-push_to w env mirror arrived table mirror.id r
            (covered.stored r m (ground (arith, old)))
      | inr new_ ↦ In-received hit r (In-sent r m (ground (arith, new_)) le)
    ];
  }

  push-IsCovered :
      (after : ExternalMirror)
      → IsPushed (delivers env mirror w.pusher) env mirror after
      → IsCovered mirror.id mirror.last_push_watermark w table
      → IsCovered mirror.id after.last_push_watermark (push_to w env mirror arrived) table
  push-IsCovered after pushed covered = elim (Bool-cases (delivers env mirror w.pusher)) [
    | inl hit ↦ rw (pushed.cursor, hit) (delivered-IsCovered (answered hit) covered)
    | inr miss ↦
        rw (pushed.cursor, miss)
          (record {
            reached = covered.reached;
            stored =
                λ r m le. In-push_to w env mirror arrived table mirror.id r (covered.stored r m le);
          })
  ]

module _ (w : World) (log : IsLogged w) (env : Env) (mirror : ExternalMirror) (arrived : Bool)
    (reads : env.db ≡ w.db) (found : get mirror.id w.pusher.repo ≡ some mirror)
    (answered : delivers env mirror w.pusher ≡ true → arrived ≡ true) where
  push_self-Covers : Covers mirror.id w → Covers mirror.id (push_to w env mirror arrived)
  push_self-Covers covers m at table active =
      let (after, now_at, pushed) = get-push_one env mirror w.pusher found in
      let same : after ≡ m = grind arith in
      let booked : IsPushed (delivers env mirror w.pusher) env mirror m = rw (sym same) pushed in
      let in_scope = rw booked.scopes at active in
      push-IsCovered w log env mirror arrived reads answered table in_scope m booked
        (covers mirror found table in_scope)

  push_other-Covers :
      (id : ℕ) → id ≢ mirror.id → Covers id w → Covers id (push_to w env mirror arrived)
  push_other-Covers id ne covers m at table active =
      let covered = covers m (rw (get-push_one_ne env mirror w.pusher id ne) at at) table active in
      record {
        reached = covered.reached;
        stored = λ r here le. In-push_to w env mirror arrived table id r (covered.stored r here le);
      }

  push-Covers : (id : ℕ) → Covers id w → Covers id (push_to w env mirror arrived)
  push-Covers id covers = elim (Bool-cases (id == mirror.id)) [
    | inl hit ↦
        let same : id ≡ mirror.id = ground arith in rw same (push_self-Covers (rw same at covers))
    | inr miss ↦ push_other-Covers id (λ e. ground arith) covers
  ]

step-Covers :
    (id : ℕ) (u v : World) → Step u v → IsLogged u × Covers id u → IsLogged v × Covers id v
step-Covers id u _ (insert table columns) (log, covers) = (
  insert-IsLogged u log table columns,
  λ m at t active.
      insert-IsCovered id m.last_push_watermark u t table columns (covers m at t active),
)
step-Covers id u _ (delete table keep) (log, covers) = (
  delete-IsLogged u log table keep,
  λ m at t active. delete-IsCovered id m.last_push_watermark u t table keep (covers m at t active),
)
step-Covers id u _ (push env mirror arrived reads found answered) (log, covers) = (
  record { ordered = log.ordered; counted = log.counted },
  push-Covers u log env mirror arrived reads found answered id covers,
)

Reach-Covers :
    (id : ℕ) (w v : World) → Reach w v → IsLogged w × Covers id w → IsLogged v × Covers id v
Reach-Covers id w _ start h = h
Reach-Covers id w v (later r s) h = step-Covers id _ v s (Reach-Covers id w _ r h)

-- No event is lost between the station and a mirror. Start with tables in key order below their
-- AUTOINCREMENT counters, and a mirror whose cursor is 0; then let rows be inserted and deleted and
-- mirrors be pushed, in any order, where a push may fail or arrive unanswered, but a page that is
-- answered by a 2xx has arrived. Then in every state that is reached, every row that stands in a
-- table in the mirror's scope with a key up to the mirror's cursor has been received by the mirror.
pub Reach-Delivered :
    (id : ℕ) (w v : World)
    → IsLogged w
    → ((m : ExternalMirror) → get id w.pusher.repo ≡ some m → m.last_push_watermark ≡ 0)
    → Reach w v
    → (m : ExternalMirror) → get id v.pusher.repo ≡ some m
    → (table : TableName) → is_active table (scopes_set m.data_scopes) ≡ true
    → (r : Event) → In r (table_rows v.db table)
    → r.id ≤ m.last_push_watermark
    → In r (v.received id table)
Reach-Delivered id w v log fresh reached m at table active r here le =
    let fresh_Covers : Covers id w = λ m at t active. record {
      reached = omega (arith, fresh m at);
      stored = λ r here le.
          absurd (omega (arith, lt_of_In 0 r (table_rows w.db t) (log.ordered t) here, fresh m at));
    } in
    ((Reach-Covers id w v reached (log, fresh_Covers)).1 m at table active).stored r here le
