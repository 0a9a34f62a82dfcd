-- ===== src/Mirror/Http.antt =====
-- backend/app/external_mirrors/http_client.py: signing, and the POST with bounded retries. What
-- httpx answers to each attempt is the argument `reply`, HMAC-SHA256 is the argument `hmac`, and
-- the delays that the client sleeps are returned beside the result. Seconds are counted in
-- milliseconds.
pub mod Retries
pub mod Signing
mod Tests
use ham_spectrum_analysis.Prelude.{
  ℕ, zero, suc, ◌+◌, ◌-◌, ◌*◌, ◌^◌, min, max, Bool, true, false, not, ◌&&◌, Option, none, some,
  List, [], ◌∷◌, ◌++◌, length, take, is_empty, all, leb, ltb, if◌then◌else◌,
}
use ham_spectrum_analysis.Text.{Text, codes, same, decimal}

-- `_signing_string`: `timestamp + "\n" + nonce + "\n" + body`
pub signing_string : (timestamp nonce body : List ℕ) → List ℕ
signing_string timestamp nonce body = timestamp ++ 10 ∷ (nonce ++ 10 ∷ body)

-- `none` is the ValueError of an empty secret.
sign_payload :
    (Text → List ℕ → Text)
    → (secret : Text) → (body : List ℕ) → (timestamp nonce : Text) → Option Text
unfolding signing_string
sign_payload hmac secret body timestamp nonce =
    if is_empty secret then none else some (hmac secret (signing_string timestamp nonce body))

verify_signature :
    (Text → List ℕ → Text)
    → (secret : Text) → (body : List ℕ) → (timestamp nonce received : Text) → Option Bool
unfolding sign_payload
verify_signature hmac secret body timestamp nonce received =
    elim (sign_payload hmac secret body timestamp nonce) [
      | none ↦ none
      | some expected ↦ some (same expected received)
    ]

pub record PushResult : Type 0 where
  pub success : Bool
  pub status_code : Option ℕ
  pub attempts : ℕ
  pub error : Option Text
  pub response_body : Option Text
  pub elapsed_ms : ℕ

unfoldable pub status_message : PushResult → Text
status_message r = if r.success then codes "ok" else elim r.error [
  | some (c ∷ e) ↦ take 200 (c ∷ e)
  | _ ↦ elim r.status_code [ some n ↦ codes "http " ++ decimal n | none ↦ codes "unknown error" ]
]

-- The constructor clamps what it is given.
pub record MirrorHttpClient : Type 0 where
  pub max_retries : ℕ
  pub backoff_base : ℕ
  pub backoff_cap : ℕ

open_client : (max_retries backoff_base backoff_cap : ℕ) → MirrorHttpClient
open_client retries base cap_ = record {
  max_retries = retries;
  backoff_base = base;
  backoff_cap = max base cap_;
}

pub backoff : MirrorHttpClient → ℕ → ℕ
backoff client attempt = min (client.backoff_base * 2 ^ (attempt - 1)) client.backoff_cap

-- What `client.post` does: it raises one of the three kinds of `HTTPError` that `post` catches, or
-- returns a response. An endpoint that is no URL, for which it raises `InvalidURL`, is not written.
pub data Reply : Type 0 where
  timeout transport http_error : Text → Reply
  response : (status : ℕ) (text : Text) → Reply

truncate : ℕ → Text → Text
truncate limit text =
    if leb (length text) limit then text else take limit text ++ codes "...[truncated]"

-- The loop's variables.
pub record Tries : Type 0 where
  pub attempts : ℕ
  pub last_error : Option Text
  pub last_status : Option ℕ
  pub last_body : Option Text

fresh : Tries
fresh = record { attempts = 0; last_error = none; last_status = none; last_body = none }

gave_up : Tries → ℕ → PushResult
gave_up t elapsed = record {
  success = false;
  status_code = t.last_status;
  attempts = t.attempts;
  error = some (elim t.last_error [ some (c ∷ e) ↦ c ∷ e | _ ↦ codes "unknown error" ]);
  response_body = t.last_body;
  elapsed_ms = elapsed;
}

accepted : Tries → ℕ → PushResult
accepted t elapsed = record {
  success = true;
  status_code = t.last_status;
  attempts = t.attempts;
  error = none;
  response_body = t.last_body;
  elapsed_ms = elapsed;
}

-- After a failure that may pass: give up on the last attempt, else sleep and go on.
retry :
    MirrorHttpClient
    → ℕ
    → (attempt : ℕ) → Tries
    → (Tries → PushResult × List ℕ)
    → PushResult × List ℕ
retry client elapsed attempt t next =
    if ltb client.max_retries attempt
    then (gave_up t elapsed, [])
    else let (result, sleeps) = next t in (result, backoff client attempt ∷ sleeps)

is_accepted : Reply → Bool
is_accepted (response status text) = leb 200 status && ltb status 300
is_accepted _ = false

is_rejected : Reply → Bool
is_rejected (response status text) = leb 400 status && ltb status 500
is_rejected _ = false

-- What is kept of an answer. The body of an earlier response stays when a later attempt raises.
noted : Tries → Reply → Tries
unfolding truncate
noted t (timeout e) = record t { last_error = some (codes "timeout: " ++ e); last_status = none }
noted t (transport e) = record t {
  last_error = some (codes "transport: " ++ e);
  last_status = none;
}
noted t (http_error e) = record t { last_error = some (codes "http: " ++ e); last_status = none }
noted t (response status text) = record t {
  last_error = some (codes "http " ++ decimal status);
  last_status = some status;
  last_body = some (truncate 2000 text);
}

-- What one answer makes of the loop. On success the error is not read.
handle :
    MirrorHttpClient
    → ℕ
    → (attempt : ℕ) → Tries
    → Reply
    → (Tries → PushResult × List ℕ)
    → PushResult × List ℕ
unfolding retry gave_up accepted
handle client elapsed attempt t answer next =
    if is_accepted answer
    then (accepted (noted t answer) elapsed, [])
    else if is_rejected answer
    then (gave_up (noted t answer) elapsed, [])
    else retry client elapsed attempt (noted t answer) next

-- `for attempt in range(1, max_retries + 2)`, by the rounds that are left.
post_loop : MirrorHttpClient → ℕ → (reply : ℕ → Reply) → ℕ → ℕ → Tries → PushResult × List ℕ
unfolding handle
post_loop client elapsed reply zero attempt t = (gave_up t elapsed, [])
post_loop client elapsed reply (suc rounds) attempt t =
    handle client elapsed attempt (record t { attempts = attempt }) (reply attempt)
      (post_loop client elapsed reply rounds (attempt + 1))

-- A name that is not ASCII is refused before the first attempt.
bad_name : PushResult
bad_name = record {
  success = false;
  status_code = none;
  attempts = 0;
  error = some (
      codes
        "mirror_name contains non-ASCII characters (ordinal not in range(128)); rename mirror to an ASCII slug");
  response_body = none;
  elapsed_ms = 0;
}

pub is_ascii : Option Text → Bool
is_ascii none = true
is_ascii (some name) = all (λ c. ltb c 128) name

-- `post`, without its headers: `none` is the ValueError of signing with an empty secret.
pub post :
    MirrorHttpClient
    → (elapsed_ms : ℕ) → (reply : ℕ → Reply) → (secret_token : Text) → (mirror_name : Option Text)
    → Option (PushResult × List ℕ)
unfolding fresh bad_name
post client elapsed reply secret_token mirror_name =
    if is_empty secret_token
    then none
    else if not (is_ascii mirror_name)
    then some (bad_name, [])
    else some (post_loop client elapsed reply (client.max_retries + 1) 1 fresh)
