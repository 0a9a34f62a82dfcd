-- ===== src/Mirror/Pusher/Tokens.antt =====
-- `TokenCache` of backend/app/external_mirrors/pusher.py: the plain tokens by mirror id, and their
-- ciphertexts in the table of mirrors. The vault's cipher is an argument.
pub mod Restart
mod Tests
use ham_spectrum_analysis.Prelude.{
  ℕ, ◌+◌, Option, none, some, List, [], ◌∷◌, map, ◌==◌, if◌then◌else◌,
}
use ham_spectrum_analysis.Text.{Text}
use ham_spectrum_analysis.Mirror.Repository.Model.{Repository}
use ham_spectrum_analysis.Mirror.Repository.Methods.{set_token_ciphertext, iter_token_ciphertexts}

-- `none` of `decrypt` is an exception.
pub record Vault : Type 0 where
  pub encrypt : Text → Text
  pub decrypt : Text → Option Text

pub record TokenCache : Type 0 where
  pub tokens : List (ℕ × Text)
  pub repo : Repository
  pub vault : Option Vault

-- `self._tokens[mid] = token`, `self._tokens.get(mid)` and `self._tokens.pop(mid, None)`
abbrev pub put : ℕ → Text → List (ℕ × Text) → List (ℕ × Text)
put id token [] = (id, token) ∷ []
put id token ((j, t) ∷ tokens) =
    let rest = put id token tokens in if j == id then (id, token) ∷ tokens else (j, t) ∷ rest

abbrev pub cached : ℕ → List (ℕ × Text) → Option Text
cached id [] = none
cached id ((j, t) ∷ tokens) = let rest = cached id tokens in if j == id then some t else rest

abbrev pop : ℕ → List (ℕ × Text) → List (ℕ × Text)
pop id [] = []
pop id ((j, t) ∷ tokens) = let rest = pop id tokens in if j == id then rest else (j, t) ∷ rest

-- Without a vault the token is kept in memory alone.
pub set_token : ℕ → Text → TokenCache → TokenCache
set_token id token cache = record cache {
  tokens = put id token cache.tokens;
  repo = elim cache.vault [
    | none ↦ cache.repo
    | some vault ↦ set_token_ciphertext id (some (vault.encrypt token)) cache.repo
  ];
}

pub get_token : ℕ → TokenCache → Option Text
get_token id cache = cached id cache.tokens

drop_token : ℕ → TokenCache → TokenCache
drop_token id cache = record cache {
  tokens = pop id cache.tokens;
  repo = set_token_ciphertext id none cache.repo;
}

known_ids : TokenCache → List ℕ
known_ids cache = map (λ entry. entry.0) cache.tokens

-- The loop of `load_persisted`: a ciphertext that does not decrypt is passed over.
abbrev pub load_all :
    (Text → Option Text) → List (ℕ × Text) → ℕ × List (ℕ × Text) → ℕ × List (ℕ × Text)
load_all decrypt [] state = state
load_all decrypt ((id, ciphertext) ∷ rest) (loaded, tokens) =
    let next = load_all decrypt rest in
    elim (decrypt ciphertext) [
      | none ↦ next (loaded, tokens)
      | some plaintext ↦ next (loaded + 1, put id plaintext tokens)
    ]

pub load_persisted : TokenCache → ℕ × TokenCache
load_persisted cache = elim cache.vault [
  | none ↦ (0, cache)
  | some vault ↦
      let (loaded, tokens) =
        load_all vault.decrypt (iter_token_ciphertexts cache.repo) (0, cache.tokens) in
      (loaded, record cache { tokens = tokens })
]
