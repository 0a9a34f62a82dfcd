-- ===== src/Mirror/Pusher.antt =====
-- `ExternalMirrorPusher` of backend/app/external_mirrors/pusher.py: one push, and one tick of the
-- loop. What the world gives (the store, the clock, the HTTP client) is the record Env.
pub mod Tokens
pub mod Push
pub mod Quiet
pub mod Replication
mod Tests
use ham_spectrum_analysis.Prelude.{
  ℕ, Bool, true, false, not, Option, none, some, List, [], ◌∷◌, is_empty, leb, any, ◌==◌,
  if◌then◌else◌,
}
use ham_spectrum_analysis.Text.{Text, codes}
use ham_spectrum_analysis.Mirror.Payload.{Database, Payload, build_payload, default_batch_size}
use ham_spectrum_analysis.Mirror.Pusher.Tokens.{cached}
use ham_spectrum_analysis.Mirror.Http.{PushResult, status_message}
use ham_spectrum_analysis.Mirror.Repository.Model.{
  ExternalMirror, Repository, Details, AuditEvent, Result, ok, err, log_event, list,
}
use ham_spectrum_analysis.Mirror.Repository.Bookkeeping.{update_after_push}

-- What one push meets: `post` is the injected client, and `elapsed_since` the whole seconds since a
-- stored time, or none if the text is no time.
pub record Env : Type 0 where
  pub db : Database
  pub bundle : Option (List (Text × Text))
  pub now : Text
  pub logged_at : Text
  pub elapsed_since : Text → Option ℕ
  pub post : (endpoint_url : Text) → Payload → (secret_token mirror_name : Text) → PushResult

-- The pusher's own state beside the repository: the plain tokens by mirror id, and the mirrors that
-- it has warned of.
pub record Pusher : Type 0 where
  pub repo : Repository
  pub tokens : List (ℕ × Text)
  pub warned_missing_token : List ℕ

abbrev pub has_warned : ℕ → List ℕ → Bool
has_warned id warned = any (λ j. j == id) warned

-- `_is_due`
pub is_due : Env → ExternalMirror → Bool
is_due env mirror = elim mirror.last_push_at [
  | none ↦ true
  | some at ↦ if is_empty at then true else elim (env.elapsed_since at) [
    | none ↦ true
    | some elapsed ↦ leb mirror.push_interval_seconds elapsed
  ]
]

abbrev pub payload_for : Env → ExternalMirror → Payload
payload_for env mirror =
    build_payload env.db env.now env.bundle mirror.name mirror.last_push_watermark
      mirror.data_scopes default_batch_size

abbrev pub post_for : Env → ExternalMirror → Text → PushResult
post_for env mirror token = env.post mirror.endpoint_url (payload_for env mirror) token mirror.name

-- The first push that finds no token is logged, the later ones are silent.
pub skip_push : Env → ExternalMirror → Pusher → Pusher
skip_push env mirror p = if has_warned mirror.id p.warned_missing_token then p else record p {
  warned_missing_token = mirror.id ∷ p.warned_missing_token;
  repo =
      log_event mirror.id AuditEvent.skipped_no_token none
        (some (Details.reason (codes "Plaintext token not cached (process restart).")))
        env.logged_at p.repo;
}

-- The bookkeeping behind the POST; false if it raised, as it does when the mirror is gone.
pub book_push : Env → ExternalMirror → PushResult → Pusher → Bool × Pusher
book_push env mirror result p =
    let new_watermark = (payload_for env mirror).meta.new_watermark in
    let (outcome, repo) =
      update_after_push mirror.id result.success
        (if result.success then some new_watermark else none) (some (status_message result)) env.now
        env.logged_at p.repo in
    (elim outcome [ err e ↦ false | ok m ↦ true ], record p { repo = repo })

-- `_push_one`, with what the cache holds; false if an exception leaves it. An empty token is no
-- token.
abbrev pub push_with : Env → ExternalMirror → Pusher → Option Text → Bool × Pusher
push_with env mirror p none = (true, skip_push env mirror p)
push_with env mirror p (some []) = (true, skip_push env mirror p)
push_with env mirror p (some (c ∷ token)) = book_push env mirror (post_for env mirror (c ∷ token)) p

pub push_one : Env → ExternalMirror → Pusher → Bool × Pusher
push_one env mirror p = push_with env mirror p (cached mirror.id p.tokens)

-- The loop of `_tick_once` over the mirrors that it listed; an exception ends the tick.
pub push_all : (ExternalMirror → Env) → List ExternalMirror → Pusher → Pusher
unfolding push_one is_due
push_all env [] p = p
push_all env (m ∷ mirrors) p =
    let rest = push_all env mirrors in
    if not m.enabled
    then rest p
    else if not (is_due (env m) m)
    then rest p
    else let (done, p') = push_one (env m) m p in if done then rest p' else p'

pub tick_once : (ExternalMirror → Env) → Pusher → Pusher
unfolding push_all
tick_once env p = push_all env (list false p.repo) p
