-- ===== src/Mirror/Pusher/Tokens/Restart.antt =====
-- A token survives a restart of the process, through its ciphertext.
use ham_spectrum_analysis.Prelude.{
  ℕ, ◌≡◌, ◌≢◌, refl, ap, sym, ◌∙◌, false, Option, none, some, List, [], ◌∷◌, All, arith, is_empty,
}
use ham_spectrum_analysis.Text.{Text}
use ham_spectrum_analysis.Mirror.Repository.Model.{
  ExternalMirror, Row, Repository, nonempty, get, find_row, update_rows,
}
use ham_spectrum_analysis.Mirror.Repository.Rows.{apply_found, find_row-update_self}
use ham_spectrum_analysis.Mirror.Repository.Methods.{
  ciphertexts, set_token_ciphertext, iter_token_ciphertexts,
}
use ham_spectrum_analysis.Mirror.Repository.Invariant.{Differ-absent, IsTable, IsRepository}
use ham_spectrum_analysis.Mirror.Repository.Invariant.Calls.{set_token_ciphertext-IsRepository}
use ham_spectrum_analysis.Mirror.Pusher.Tokens.{
  Vault, TokenCache, put, cached, set_token, get_token, load_all, load_persisted,
}

cached-put_self :
    (id : ℕ) (token : Text) (tokens : List (ℕ × Text))
    → cached id (put id token tokens) ≡ some token
cached-put_self id token [] = ground arith
cached-put_self id token ((j, t) ∷ tokens) = ground (arith, cached-put_self id token tokens)

cached-put_ne :
    (id j : ℕ) (token : Text) (tokens : List (ℕ × Text))
    → j ≢ id
    → cached j (put id token tokens) ≡ cached j tokens
cached-put_ne id j token [] ne = ground arith
cached-put_ne id j token ((k, t) ∷ tokens) ne = ground (arith, cached-put_ne id j token tokens ne)

module _ (decrypt : Text → Option Text) (id : ℕ) where
  load_absent :
      (rows : List Row) (loaded : ℕ) (tokens : List (ℕ × Text))
      → All (λ r. r.mirror.id ≢ id) rows
      → cached id (load_all decrypt (ciphertexts rows) (loaded, tokens)).1 ≡ cached id tokens
  unfolding ciphertexts
  load_absent [] loaded tokens h = refl
  load_absent (r ∷ rows) loaded tokens h =
      let later = λ (l : ℕ) (ts : List (ℕ × Text)). load_absent rows l ts h.1 in
      let kept = λ (t : Text). cached-put_ne r.mirror.id id t tokens (λ e. h.0 (sym e)) in
      grind (arith, later, kept)

  load_found :
      (seq : ℕ) (rows : List Row) (r : Row) (ciphertext token : Text) (loaded : ℕ)
      (tokens : List (ℕ × Text))
      → IsTable seq rows
      → find_row id rows ≡ some r
      → nonempty r.auth_token_ciphertext ≡ some ciphertext
      → decrypt ciphertext ≡ some token
      → cached id (load_all decrypt (ciphertexts rows) (loaded, tokens)).1 ≡ some token
  unfolding ciphertexts
  load_found seq [] r c token loaded tokens table at stored opens = ground arith
  load_found seq (s ∷ rows) r c token loaded tokens (fine, le, d, table) at stored opens =
      let absent = λ (e : s.mirror.id ≡ id) (l : ℕ) (ts : List (ℕ × Text)).
        load_absent rows l ts (Differ-absent id s rows e d) in
      let later = λ (l : ℕ) (ts : List (ℕ × Text)) (h : find_row id rows ≡ some r).
        load_found seq rows r c token l ts table h stored opens in
      let put_here = λ (t : Text). cached-put_self s.mirror.id t tokens in
      grind (arith, absent, later, put_here)

row_of :
    (id : ℕ) (repo : Repository) (m : ExternalMirror)
    → get id repo ≡ some m
    → (r : Row) × (find_row id repo.rows ≡ some r)
unfolding get
row_of id repo m found = go (find_row id repo.rows) refl (ground (arith, found))
  where
    go :
        (at : Option Row)
        → find_row id repo.rows ≡ at
        → at ≢ none
        → (r : Row) × (find_row id repo.rows ≡ some r)
    go none e filled = absurd (filled refl)
    go (some r) e filled = (r, e)

load_stored :
    (id : ℕ) (token : Text) (repo : Repository) (vault : Vault)
    → (r : Row) × (find_row id repo.rows ≡ some r)
    → IsRepository repo
    → is_empty (vault.encrypt token) ≡ false
    → vault.decrypt (vault.encrypt token) ≡ some token
    → cached id
        (load_all vault.decrypt
          (iter_token_ciphertexts (set_token_ciphertext id (some (vault.encrypt token)) repo))
          (0, [])).1
      ≡ some token
unfolding iter_token_ciphertexts set_token_ciphertext
load_stored id token repo vault (r, at) table filled opens =
    let encrypted : Row → Row =
      λ x. record x { auth_token_ciphertext = some (vault.encrypt token) } in
    let kept = set_token_ciphertext-IsRepository id (some (vault.encrypt token)) repo table in
    load_found vault.decrypt id repo.seq (update_rows id encrypted repo.rows) (encrypted r)
      (vault.encrypt token) token 0 [] kept
      (find_row-update_self id encrypted (λ x. refl) repo.rows ∙ ap (apply_found encrypted) at)
      (ground arith) opens

-- The process ends: the memory is lost, the tables stay.
abbrev pub restart : TokenCache → TokenCache
restart cache = record cache { tokens = [] }

-- With a vault, a token that is set for a mirror that is there is read back at once, and after a restart
-- that loads the ciphertexts, if the table is well-formed and the vault decrypts what it encrypted,
-- which is not empty.
pub set_token-load_persisted :
    (id : ℕ) (token : Text) (cache : TokenCache) (vault : Vault) (m : ExternalMirror)
    → cache.vault ≡ some vault
    → IsRepository cache.repo
    → get id cache.repo ≡ some m
    → is_empty (vault.encrypt token) ≡ false
    → vault.decrypt (vault.encrypt token) ≡ some token
    → (get_token id (set_token id token cache) ≡ some token)
      × (get_token id (load_persisted (restart (set_token id token cache))).1 ≡ some token)
unfolding set_token get_token load_persisted iter_token_ciphertexts set_token_ciphertext get
set_token-load_persisted id token cache vault m armed table found filled opens = (
  cached-put_self id token cache.tokens,
  rw armed
      (load_stored id token cache.repo vault (row_of id cache.repo m found) table filled opens),
)
