-- ===== src/Mirror/Http/Tests.antt =====
-- A client with three retries, a server that recovers, and two signed texts.
use ham_spectrum_analysis.Prelude.{
  ℕ, zero, suc, ◌+◌, ◌≤◌, ◌≡◌, refl, true, some, List, [], ◌∷◌, arith,
}
use ham_spectrum_analysis.Text.{Text, codes}
use ham_spectrum_analysis.Mirror.Http.{
  PushResult, MirrorHttpClient, Reply, timeout, response, is_ascii, post,
}
use ham_spectrum_analysis.Mirror.Http.Retries.{IsRun, outcome, post-IsRun}
use ham_spectrum_analysis.Mirror.Http.Signing.{OneLine, signing_string_injective}

abbrev client : MirrorHttpClient
client = record { max_retries = 3; backoff_base = 1000; backoff_cap = 1500 }

abbrev recovering : ℕ → Reply
recovering (suc (suc (suc attempt))) = response 200 (codes "stored")
recovering (suc (suc zero)) = response 503 (codes "busy")
recovering attempt = timeout (codes "read")

ascii_name : is_ascii (some (codes "site")) ≡ true
unfolding is_ascii
ascii_name = refl

third_attempt : outcome recovering 3 1 ≡ (true, 3)
third_attempt = refl

post-IsRun_example :
    (run : PushResult × List ℕ) × (post client 40 recovering (codes "secret") (some (codes "site"))
      ≡ some run)
    × IsRun client (outcome recovering 3 1) 1 run
    × (run.0.attempts ≤ 3 + 1)
post-IsRun_example =
    post-IsRun client 40 recovering (codes "secret") (some (codes "site")) refl ascii_name

stamp-OneLine : OneLine (codes "17")
stamp-OneLine = ground arith

nonce-OneLine : OneLine (codes "9f")
nonce-OneLine = ground arith

abbrev stamp : Text
stamp = codes "17"

abbrev body : Text
body = 123 ∷ 10 ∷ 125 ∷ []

signing_example : (stamp ≡ stamp) × (codes "9f" ≡ codes "9f") × (body ≡ body)
signing_example =
    signing_string_injective stamp (codes "9f") body stamp (codes "9f") body stamp-OneLine
      stamp-OneLine nonce-OneLine nonce-OneLine refl
