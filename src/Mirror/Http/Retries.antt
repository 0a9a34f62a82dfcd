-- ===== src/Mirror/Http/Retries.antt =====
-- Which attempt decides a POST, how many are made and how long the client sleeps between them.
use native.Mathlib.Numerals.{add-one}
use ham_spectrum_analysis.Prelude.{
  ℕ, zero, suc, ◌+◌, ◌≤◌, ◌<◌, ◌≡◌, refl, Bool, true, false, ◌&&◌, Option, some, List, length, All,
  is_empty, leb, ltb, arith, if◌then◌else◌,
}
use ham_spectrum_analysis.Text.{Text}
use ham_spectrum_analysis.Mirror.Http.{
  PushResult, MirrorHttpClient, backoff, Reply, response, Tries, is_accepted, is_rejected, noted,
  handle, post_loop, is_ascii, post, fresh,
}

-- The contract of the loop: a 2xx answer accepts the push, a 4xx answer rejects it for good, and
-- after everything else, 1xx, 3xx and 5xx answers and the three exceptions, it may pass yet.
pub data Verdict : Type 0 where
  accept reject again : Verdict

abbrev pub verdict : Reply → Verdict
verdict (response status text) =
    if leb 200 status && ltb status 300
    then accept
    else if leb 400 status && ltb status 500
    then reject
    else again
verdict _ = again

abbrev pub decided : ℕ → Verdict → Bool × ℕ → Bool × ℕ
decided attempt accept rest = (true, attempt)
decided attempt reject rest = (false, attempt)
decided attempt again rest = rest

-- Whether the push is accepted, and by which attempt it is decided, with `retries` after this one.
abbrev pub outcome : (ℕ → Reply) → (retries attempt : ℕ) → Bool × ℕ
outcome reply zero attempt = decided attempt (verdict (reply attempt)) (false, attempt)
outcome reply (suc retries) attempt =
    let rest = outcome reply retries (attempt + 1) in decided attempt (verdict (reply attempt)) rest

-- A run that starts with `attempt` ends as `spec` says, sleeps once before each attempt but the
-- first, and never longer than the cap.
pub record IsRun (client : MirrorHttpClient) (spec : Bool × ℕ) (attempt : ℕ)
    (run : PushResult × List ℕ) : Type 0 where
  pub success : run.0.success ≡ spec.0
  pub attempts : run.0.attempts ≡ spec.1
  pub sleeps : length run.1 + attempt ≡ run.0.attempts
  pub short : All (λ s. s ≤ client.backoff_cap) run.1

backoff-le : (client : MirrorHttpClient) (attempt : ℕ) → backoff client attempt ≤ client.backoff_cap
unfolding backoff
backoff-le client attempt = omega arith

verdict_lem :
    (answer : Reply)
    → verdict answer
      ≡ (if is_accepted answer then accept else if is_rejected answer then reject else again)
unfolding is_accepted is_rejected
verdict_lem (response status text) = refl
verdict_lem _ = refl

attempts-noted : (t : Tries) (answer : Reply) → (noted t answer).attempts ≡ t.attempts
unfolding noted
attempts-noted t (response status text) = refl
attempts-noted t _ = refl

module _ (client : MirrorHttpClient) (elapsed attempt : ℕ) where
  handle-last :
      (t : Tries) (answer : Reply) (next : Tries → PushResult × List ℕ)
      → t.attempts ≡ attempt
      → client.max_retries < attempt
      → IsRun client
          (decided attempt (verdict answer) (false, attempt))
          attempt
          (handle client elapsed attempt t answer next)
  unfolding handle
  handle-last t answer next e last =
      rw (verdict_lem answer) (ground (arith, attempts-noted t answer))

  handle-more :
      (t : Tries) (answer : Reply) (next : Tries → PushResult × List ℕ) (spec : Bool × ℕ)
      → t.attempts ≡ attempt
      → attempt ≤ client.max_retries
      → ((t' : Tries) → IsRun client spec (attempt + 1) (next t'))
      → IsRun client
          (decided attempt (verdict answer) spec)
          attempt
          (handle client elapsed attempt t answer next)
  unfolding handle
  handle-more t answer next spec e more run =
      rw (verdict_lem answer)
        (ground (arith, attempts-noted t answer, run (noted t answer), backoff-le client attempt))

post_loop-IsRun :
    (client : MirrorHttpClient) (elapsed : ℕ) (reply : ℕ → Reply) (retries attempt : ℕ) (t : Tries)
    → client.max_retries + 1 ≡ attempt + retries
    → IsRun client
        (outcome reply retries attempt)
        attempt
        (post_loop client elapsed reply (suc retries) attempt t)
unfolding post_loop
post_loop-IsRun client elapsed reply zero attempt t e =
    handle-last client elapsed attempt (record t { attempts = attempt }) (reply attempt)
      (post_loop client elapsed reply zero (attempt + 1)) refl (omega arith)
post_loop-IsRun client elapsed reply (suc retries) attempt t e =
    handle-more client elapsed attempt (record t { attempts = attempt }) (reply attempt)
      (post_loop client elapsed reply (suc retries) (attempt + 1))
      (outcome reply retries (attempt + 1)) refl (omega arith)
      (λ t'. post_loop-IsRun client elapsed reply retries (attempt + 1) t' (omega arith))

outcome-le :
    (reply : ℕ → Reply) (retries attempt : ℕ)
    → (outcome reply retries attempt).1 ≤ attempt + retries
outcome-le reply zero attempt = ground arith
outcome-le reply (suc retries) attempt = ground (arith, outcome-le reply retries (attempt + 1))

-- A POST with a secret and an ASCII name returns a result, whatever responses and exceptions of the
-- three kinds the attempts meet. It is accepted by the first attempt with a 2xx answer, if none before
-- it had a 4xx answer, and refused by the first 4xx answer; 1xx, 3xx and 5xx answers and exceptions
-- are tried again, and after `max_retries + 1` attempts, the first included, it is given up. There is
-- one delay before each attempt but the first, and none is longer than the cap.
pub post-IsRun :
    (client : MirrorHttpClient) (elapsed : ℕ) (reply : ℕ → Reply) (secret : Text)
    (name : Option Text)
    → is_empty secret ≡ false
    → is_ascii name ≡ true
    → (run : PushResult × List ℕ) × (post client elapsed reply secret name ≡ some run)
      × IsRun client (outcome reply client.max_retries 1) 1 run
      × (run.0.attempts ≤ client.max_retries + 1)
unfolding post
post-IsRun client elapsed reply secret name filled ascii =
    let run = post_loop-IsRun client elapsed reply client.max_retries 1 fresh (omega arith) in
    (
      post_loop client elapsed reply (suc client.max_retries) 1 fresh,
      rw (filled, ascii, add-one),
      run,
      omega (arith, outcome-le reply client.max_retries 1, run.attempts),
    )
