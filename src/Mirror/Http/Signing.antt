-- ===== src/Mirror/Http/Signing.antt =====
-- What the signature covers.
use ham_spectrum_analysis.Prelude.{ℕ, ◌≡◌, ◌≢◌, List, [], ◌∷◌, ◌++◌, All, arith}
use ham_spectrum_analysis.Text.{Text}
use ham_spectrum_analysis.Mirror.Http.{signing_string}

-- No line feed stands in the text.
abbrev pub OneLine : Text → Type 0
OneLine = All (λ c. c ≢ 10)

split : (s t x y : List ℕ) → OneLine s → OneLine t → s ++ 10 ∷ x ≡ t ++ 10 ∷ y → (s ≡ t) × (x ≡ y)
split [] [] x y h k e = ground arith
split [] (d ∷ t) x y h k e = ground arith
split (c ∷ s) [] x y h k e = ground arith
split (c ∷ s) (d ∷ t) x y h k e = ground (arith, split s t x y h.1 k.1)

-- The signed text determines what was signed: for timestamps and nonces of one line, two requests
-- with the same signing string have the same timestamp, the same nonce and the same body.
pub signing_string_injective :
    (timestamp nonce body timestamp' nonce' body' : List ℕ)
    → OneLine timestamp
    → OneLine timestamp'
    → OneLine nonce
    → OneLine nonce'
    → signing_string timestamp nonce body ≡ signing_string timestamp' nonce' body'
    → (timestamp ≡ timestamp') × (nonce ≡ nonce') × (body ≡ body')
unfolding signing_string
signing_string_injective t n b t' n' b' ht ht' hn hn' e =
    let (same_t, rest) = split t t' (n ++ 10 ∷ b) (n' ++ 10 ∷ b') ht ht' e in
    let (same_n, same_b) = split n n' b b' hn hn' rest in (same_t, same_n, same_b)
