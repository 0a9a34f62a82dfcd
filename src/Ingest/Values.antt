-- ===== src/Ingest/Values.antt =====
-- The dictionaries of backend/app/decoders/ingest.py, and how the blob of an event is merged.
use ham_spectrum_analysis.Prelude.{
  ℕ, Bool, false, not, Option, none, some, List, [], ◌∷◌, any, is_empty, if◌then◌else◌,
}
use ham_spectrum_analysis.Text.{Text, codes, same}

-- A value of Python: None, a text, or another one with its truth and what `str` makes of it.
pub data Value : Type 0 where
  null : Value
  str : Text → Value
  other : (truth : Bool) (text : Text) → Value

abbrev pub Dict : Type 0
Dict = List (Text × Value)

-- A number of Hz.
pub data Hz : Type 0 where
  at below_zero : ℕ → Hz

-- `none` is an exception: of `int`, of `json.loads` or of `{**...}` on what it gives, and of `{**...}`
-- on a value that is no text.
pub record Python : Type 0 where
  pub int : Value → Option Hz
  pub loads : Text → Option Dict
  pub spread : Value → Option Dict
  pub dumps : Dict → Text
  pub now : Text

-- `payload.get(key)`
abbrev pub get_value : Text → Dict → Value
get_value key [] = null
get_value key ((k, v) ∷ entries) =
    let rest = get_value key entries in if same k key then v else rest

abbrev pub truth : Value → Bool
truth null = false
truth (str s) = not (is_empty s)
truth (other b text) = b

abbrev pub text_of : Value → Text
text_of null = codes "None"
text_of (str s) = s
text_of (other b text) = text

-- `a or b`
abbrev pub or_else : Value → Value → Value
or_else a b = if truth a then a else b

abbrev pub one_of : Text → List Text → Bool
one_of s names = any (same s) names

-- `{**a, **b}`: an entry of `b` takes the place of the one of its key.
abbrev pub put_value : Text → Value → Dict → Dict
put_value key v [] = (key, v) ∷ []
put_value key v ((k, w) ∷ entries) =
    let rest = put_value key v entries in if same k key then (key, v) ∷ entries else (k, w) ∷ rest

abbrev pub merge : Dict → Dict → Dict
merge a [] = a
merge a ((k, v) ∷ b) = merge (put_value k v a) b

abbrev pub extras_of : List Text → Dict → Dict
extras_of [] payload = []
extras_of (key ∷ keys) payload =
    let rest = extras_of keys payload in
    elim (get_value key payload) [ null ↦ rest | _ ↦ (key, get_value key payload) ∷ rest ]

base_entries : Python → Value → Option Dict
base_entries py null = some []
base_entries py (str s) = py.loads s
base_entries py (other b text) = if b then py.spread (other b text) else some []

-- The blob with the extra entries merged into it; where that raises, the extra entries alone.
pub payload_blob : Python → (base : Value) → (extra : Dict) → Value
unfolding base_entries
payload_blob py base [] = base
payload_blob py base (entry ∷ extra) = elim (base_entries py base) [
  | none ↦ str (py.dumps (entry ∷ extra))
  | some entries ↦ str (py.dumps (merge entries (entry ∷ extra)))
]
