-- ===== src/Mirror/Pusher/Push.antt =====
-- What one push makes of the repository, by whether it was accepted.
use ham_spectrum_analysis.Prelude.{
  ℕ, ◌≡◌, ◌≢◌, refl, Bool, false, Option, none, some, [], ◌∷◌, arith, if◌then◌else◌,
}
use ham_spectrum_analysis.Text.{Text}
use ham_spectrum_analysis.Mirror.Http.{status_message}
use ham_spectrum_analysis.Mirror.Repository.Model.{ExternalMirror, get, log_event}
use ham_spectrum_analysis.Mirror.Repository.Bookkeeping.Outcome.{
  update_after_push-IsBooked, get-after_ne,
}
use ham_spectrum_analysis.Mirror.Pusher.Tokens.{cached}
use ham_spectrum_analysis.Mirror.Pusher.{
  Env, Pusher, payload_for, post_for, skip_push, book_push, push_with, push_one,
}

-- The push is made and accepted with this token, or with the token that is cached.
abbrev pub accepts : Env → ExternalMirror → Option Text → Bool
accepts env mirror none = false
accepts env mirror (some []) = false
accepts env mirror (some (c ∷ token)) = (post_for env mirror (c ∷ token)).success

abbrev pub delivers : Env → ExternalMirror → Pusher → Bool
delivers env mirror p = accepts env mirror (cached mirror.id p.tokens)

push_one_lem :
    (env : Env) (mirror : ExternalMirror) (p : Pusher)
    → push_one env mirror p ≡ push_with env mirror p (cached mirror.id p.tokens)
unfolding push_one
push_one_lem env mirror p = refl

get-skip_push :
    (env : Env) (mirror : ExternalMirror) (p : Pusher) (j : ℕ)
    → get j (skip_push env mirror p).repo ≡ get j p.repo
unfolding skip_push get log_event
get-skip_push env mirror p j = ground arith

-- The mirror after a push: its scopes stay, and its cursor moves exactly if it was accepted.
pub record IsPushed (moved : Bool) (env : Env) (mirror after : ExternalMirror) : Type 0 where
  pub scopes : after.data_scopes ≡ mirror.data_scopes
  pub cursor :
      after.last_push_watermark
      ≡ (if moved then (payload_for env mirror).meta.new_watermark else mirror.last_push_watermark)

get-push_with :
    (env : Env) (mirror : ExternalMirror) (p : Pusher) (token : Option Text)
    → get mirror.id p.repo ≡ some mirror
    → (after : ExternalMirror) × (get mirror.id (push_with env mirror p token).1.repo ≡ some after)
      × IsPushed (accepts env mirror token) env mirror after
unfolding book_push
get-push_with env mirror p none found =
    (mirror, rw (get-skip_push env mirror p mirror.id) found, ground arith)
get-push_with env mirror p (some []) found =
    (mirror, rw (get-skip_push env mirror p mirror.id) found, ground arith)
get-push_with env mirror p (some (c ∷ token)) found =
    let result = post_for env mirror (c ∷ token) in
    let new_watermark = (payload_for env mirror).meta.new_watermark in
    let (after, at, booked, logged, kept) =
      update_after_push-IsBooked mirror.id result.success
        (if result.success then some new_watermark else none) (some (status_message result)) env.now
        env.logged_at p.repo mirror found in
    (after, at, ground (arith, booked))

pub get-push_one :
    (env : Env) (mirror : ExternalMirror) (p : Pusher)
    → get mirror.id p.repo ≡ some mirror
    → (after : ExternalMirror) × (get mirror.id (push_one env mirror p).1.repo ≡ some after)
      × IsPushed (delivers env mirror p) env mirror after
get-push_one env mirror p found =
    rw (push_one_lem env mirror p) (get-push_with env mirror p (cached mirror.id p.tokens) found)

get-push_with_ne :
    (env : Env) (mirror : ExternalMirror) (p : Pusher) (token : Option Text) (j : ℕ)
    → j ≢ mirror.id
    → get j (push_with env mirror p token).1.repo ≡ get j p.repo
unfolding book_push
get-push_with_ne env mirror p none j ne = get-skip_push env mirror p j
get-push_with_ne env mirror p (some []) j ne = get-skip_push env mirror p j
get-push_with_ne env mirror p (some (c ∷ token)) j ne =
    let result = post_for env mirror (c ∷ token) in
    get-after_ne mirror.id result.success
      (if result.success then some (payload_for env mirror).meta.new_watermark else none)
      (some (status_message result)) env.now env.logged_at p.repo j ne

pub get-push_one_ne :
    (env : Env) (mirror : ExternalMirror) (p : Pusher) (j : ℕ)
    → j ≢ mirror.id
    → get j (push_one env mirror p).1.repo ≡ get j p.repo
get-push_one_ne env mirror p j ne =
    rw (push_one_lem env mirror p) (get-push_with_ne env mirror p (cached mirror.id p.tokens) j ne)
