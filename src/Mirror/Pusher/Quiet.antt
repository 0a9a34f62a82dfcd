-- ===== src/Mirror/Pusher/Quiet.antt =====
-- What a push without a token, and a tick for a mirror that is not due, leave alone.
use ham_spectrum_analysis.Prelude.{
  ℕ, ◌+◌, ◌≡◌, refl, sym, inl, inr, true, false, Bool-cases, Option, none, some, List, [], ◌∷◌, In,
  length, arith, if◌then◌else◌,
}
use ham_spectrum_analysis.Text.{Text}
use ham_spectrum_analysis.Mirror.Repository.Model.{ExternalMirror, get, list}
use ham_spectrum_analysis.Mirror.Repository.Bookkeeping.Outcome.{length-log_event}
use ham_spectrum_analysis.Mirror.Pusher.Tokens.{cached}
use ham_spectrum_analysis.Mirror.Pusher.{
  Env, Pusher, has_warned, is_due, skip_push, push_with, push_one, push_all, tick_once,
}
use ham_spectrum_analysis.Mirror.Pusher.Push.{get-push_one_ne}

-- No token, or an empty one.
abbrev pub LacksToken : ExternalMirror → Pusher → Type 0
LacksToken mirror p = (token : Text) → cached mirror.id p.tokens ≡ some token → token ≡ []

skip_push_lem :
    (env : Env) (mirror : ExternalMirror) (p : Pusher)
    → LacksToken mirror p
    → push_one env mirror p ≡ (true, skip_push env mirror p)
unfolding push_one
skip_push_lem env mirror p lacks = go (cached mirror.id p.tokens) lacks
  where
    go :
        (held : Option Text)
        → ((token : Text) → held ≡ some token → token ≡ [])
        → push_with env mirror p held ≡ (true, skip_push env mirror p)
    go none h = refl
    go (some []) h = refl
    go (some (c ∷ t)) h = absurd (ground (arith, h (c ∷ t) refl))

tokens-skip_push :
    (env : Env) (mirror : ExternalMirror) (p : Pusher) → (skip_push env mirror p).tokens ≡ p.tokens
unfolding skip_push
tokens-skip_push env mirror p = ground arith

skip_push_twice :
    (env env' : Env) (mirror : ExternalMirror) (p : Pusher)
    → skip_push env' mirror (skip_push env mirror p) ≡ skip_push env mirror p
unfolding skip_push
skip_push_twice env env' mirror p = ground arith

length-skip_push :
    (env : Env) (mirror : ExternalMirror) (p : Pusher)
    → length (skip_push env mirror p).repo.audit
      ≡ length p.repo.audit + (if has_warned mirror.id p.warned_missing_token then 0 else 1)
unfolding skip_push
length-skip_push env mirror p = grind (arith, length-log_event)

-- A mirror without a token is skipped and no exception is raised. The first skip writes one entry
-- into the audit log, and every later one, whatever the time and the events by then, changes
-- nothing at all.
push_one_skips :
    (env later : Env) (mirror : ExternalMirror) (p : Pusher)
    → LacksToken mirror p
    → let p' = (push_one env mirror p).1 in
      ((push_one env mirror p).0 ≡ true)
      × (length p'.repo.audit
          ≡ length p.repo.audit + (if has_warned mirror.id p.warned_missing_token then 0 else 1))
      × (push_one later mirror p' ≡ (true, p'))
push_one_skips env later mirror p lacks =
    let skipped = skip_push_lem env mirror p lacks in
    let again =
      skip_push_lem later mirror (skip_push env mirror p)
        (rw (tokens-skip_push env mirror p) lacks) in
    rw skipped
      (refl, length-skip_push env mirror p, rw (again, skip_push_twice env later mirror p) refl)

push_all-get :
    (env : ExternalMirror → Env) (j : ℕ) (mirrors : List ExternalMirror) (p : Pusher)
    → ((m : ExternalMirror) → In m mirrors → m.id ≡ j → is_due (env m) m ≡ false)
    → get j (push_all env mirrors p).repo ≡ get j p.repo
unfolding push_all
push_all-get env j [] p h = refl
push_all-get env j (m ∷ mirrors) p h =
    let later : (n : ExternalMirror) → In n mirrors → n.id ≡ j → is_due (env n) n ≡ false =
      λ n at. h n (inr at) in
    let rest = push_all-get env j mirrors p later in
    let rest' = push_all-get env j mirrors (push_one (env m) m p).1 later in
    let waits = h m (inl refl) in
    elim (Bool-cases (is_due (env m) m)) [
      | inr early ↦ ground (arith, early, rest)
      | inl due ↦ ground (
        arith,
        rest,
        rest',
        get-push_one_ne (env m) m p j (λ e. ground (arith, due, waits (sym e))),
      )
    ]

-- A tick does not touch a mirror whose interval has not passed, whatever the other mirrors do.
tick_once-get :
    (env : ExternalMirror → Env) (j : ℕ) (p : Pusher)
    → ((m : ExternalMirror) → In m (list false p.repo) → m.id ≡ j → is_due (env m) m ≡ false)
    → get j (tick_once env p).repo ≡ get j p.repo
unfolding tick_once
tick_once-get env j p h = push_all-get env j (list false p.repo) p h
