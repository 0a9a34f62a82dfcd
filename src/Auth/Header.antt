-- ===== src/Auth/Header.antt =====
-- backend/app/core/auth.py: passwords and the Authorization header. bcrypt, base64 and sha256 are
-- arguments, and so are the texts of times.
use ham_spectrum_analysis.Prelude.{
  ℕ, ◌≡◌, refl, Bool, true, false, ◌&&◌, ◌||◌, Option, none, some, List, [], ◌∷◌, ◌==◌,
  if◌then◌else◌,
}
use ham_spectrum_analysis.Text.{Text, codes, same, lower, is_space}

-- `none` is an exception: of `bcrypt.checkpw`, of `base64.b64decode(...).decode('utf-8')`, and the
-- ValueError of `datetime.fromisoformat`. `hashpw` takes the salt that `gensalt` drew.
pub record Primitives : Type 0 where
  pub checkpw : (password hashed : Text) → Option Bool
  pub hashpw : (password salt : Text) → Text
  pub b64decode : Text → Option Text
  pub sha256 : Text → Text
  pub isoformat : ℕ → Text
  pub fromisoformat : Text → Option ℕ

unfoldable or_false : Option Bool → Bool
or_false none = false
or_false (some b) = b

unfoldable pub verify_password : Primitives → (password hashed_password : Text) → Bool
unfolding or_false
verify_password p password hashed_password = or_false (p.checkpw password hashed_password)

-- A character in front of the words of a text: it starts a word if a space or the end follows.
abbrev put_char : ℕ → Text → List Text → List Text
put_char c [] words = (c ∷ []) ∷ words
put_char c (d ∷ s) [] = (c ∷ []) ∷ []
put_char c (d ∷ s) (w ∷ words) = if is_space d then (c ∷ []) ∷ w ∷ words else (c ∷ w) ∷ words

-- `str.split()`
pub split : Text → List Text
unfolding is_space
split [] = []
split (c ∷ s) = let words = split s in if is_space c then words else put_char c s words

-- `decoded.split(':', 1)`; `none` where the text has no colon.
split_credentials : Text → Option (Text × Text)
split_credentials [] = none
split_credentials (c ∷ s) =
    let rest = split_credentials s in
    if c == b':'
    then some ([], s)
    else elim rest [ none ↦ none | some (user, password) ↦ some (c ∷ user, password) ]

decode_credentials : Option Text → Option (Text × Text)
decode_credentials none = none
decode_credentials (some decoded) = split_credentials decoded

parse_parts : Primitives → List Text → Option (Text × Text)
unfolding decode_credentials
parse_parts p (scheme ∷ credentials ∷ []) =
    if same (lower scheme) (codes "basic")
    then decode_credentials (p.b64decode credentials)
    else none
parse_parts p _ = none

-- An empty header has no parts, as the source's test for it says.
pub parse_basic_auth : Primitives → (authorization : Text) → Option (Text × Text)
unfolding parse_parts
parse_basic_auth p authorization = parse_parts p (split authorization)

pub parse_basic_auth-nil : (p : Primitives) → parse_basic_auth p [] ≡ none
unfolding parse_basic_auth parse_parts split
parse_basic_auth-nil p = refl

abbrev starts_with : Text → Text → Bool
starts_with [] s = true
starts_with (c ∷ prefix) [] = false
starts_with (c ∷ prefix) (d ∷ s) = c == d && starts_with prefix s

pub is_bcrypt_hash : Text → Bool
is_bcrypt_hash value =
    starts_with (codes "$2b$") value
    || starts_with (codes "$2a$") value
    || starts_with (codes "$2y$") value
