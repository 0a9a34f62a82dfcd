-- ===== src/Ingest/Callsigns.antt =====
-- `normalize_callsign` and `is_valid_callsign` of backend/app/decoders/ingest.py, with the regular
-- expression as data and a matcher that gives what is left behind each match. `str.upper` is that of
-- ASCII letters; what `is_valid_callsign` does behind it is a function of its own, for every text.
pub mod Shape
pub mod Clean
use ham_spectrum_analysis.Prelude.{
  ℕ, zero, suc, ◌+◌, ◌-◌, Bool, true, false, ◌&&◌, ◌||◌, Option, none, some, List, [], ◌∷◌, ◌++◌,
  any, leb, ◌==◌, is_empty, if◌then◌else◌,
}
use ham_spectrum_analysis.Text.{Text, strip, upper, is_decimal}

pub data Class : Type 0 where
  letter digit alnum slash : Class

abbrev pub is_ascii_digit : ℕ → Bool
is_ascii_digit c = leb b'0' c && leb c b'9'

abbrev pub is_letter : ℕ → Bool
is_letter c = leb b'A' c && leb c b'Z'

abbrev pub in_class : Class → ℕ → Bool
in_class letter c = is_letter c
in_class digit c = is_decimal c
in_class alnum c = is_letter c || is_ascii_digit c
in_class slash c = c == b'/'

-- `chars p lo hi` is a class with its least and greatest number of characters.
pub data Regex : Type 0 where
  chars : Class → (lo hi : ℕ) → Regex
  seq alt : Regex → Regex → Regex
  optional : Regex → Regex

-- The rests of a text behind `lo` to `hi` characters of a class.
abbrev pub behind_chars : Class → (lo hi : ℕ) → Text → List Text
behind_chars p lo zero s = if lo == 0 then s ∷ [] else []
behind_chars p lo (suc hi) [] = if lo == 0 then [] ∷ [] else []
behind_chars p lo (suc hi) (c ∷ s) =
    let longer = behind_chars p (lo - 1) hi s in
    let here = if lo == 0 then (c ∷ s) ∷ [] else [] in if in_class p c then longer ++ here else here

abbrev pub flat_map : (Text → List Text) → List Text → List Text
flat_map f [] = []
flat_map f (s ∷ rests) = f s ++ flat_map f rests

abbrev pub behind : Regex → Text → List Text
behind (chars p lo hi) s = behind_chars p lo hi s
behind (seq a b) s = flat_map (behind b) (behind a s)
behind (alt a b) s = behind a s ++ behind b s
behind (optional a) s = behind a s ++ s ∷ []

-- `$`: the end, or a newline at the end.
abbrev pub at_end : Text → Bool
at_end [] = true
at_end (c ∷ []) = c == 10
at_end (c ∷ d ∷ s) = false

abbrev pub matches_re : Regex → Text → Bool
matches_re r s = any at_end (behind r s)

abbrev pub one : Class → Regex
one p = chars p 1 1

-- `(?:[A-Z]{1,2}\d|[A-Z]\d[A-Z])\d{0,3}[A-Z]{1,4}`
abbrev pub letter_start : Regex
letter_start =
    seq (alt (seq (chars letter 1 2) (one digit)) (seq (one letter) (seq (one digit) (one letter))))
      (seq (chars digit 0 3) (chars letter 1 4))

-- `\d[A-Z]{1,2}\d{1,3}[A-Z]{2,4}`
abbrev pub digit_start : Regex
digit_start = seq (one digit) (seq (chars letter 1 2) (seq (chars digit 1 3) (chars letter 2 4)))

abbrev pub valid_callsign_re : Regex
valid_callsign_re =
    seq (alt letter_start digit_start) (optional (seq (one slash) (chars alnum 1 4)))

-- `.split("-")[0]`
abbrev pub before_dash : Text → Text
before_dash [] = []
before_dash (c ∷ s) = let rest = before_dash s in if c == b'-' then [] else c ∷ rest

-- `is_valid_callsign` behind `.upper()`. An empty text, for which the source tests, does not match.
unfoldable pub is_valid_upper : (uppercased : Text) → Bool
is_valid_upper uppercased = matches_re valid_callsign_re (before_dash uppercased)

unfoldable pub is_valid_callsign : Text → Bool
unfolding is_valid_upper
is_valid_callsign value = is_valid_upper (upper value)

-- `[A-Za-z0-9/\-]`
abbrev pub is_kept : ℕ → Bool
is_kept c = is_letter c || (leb b'a' c && leb c b'z') || is_ascii_digit c || c == b'/' || c == b'-'

abbrev pub keep_chars : Text → Text
keep_chars [] = []
keep_chars (c ∷ s) = let rest = keep_chars s in if is_kept c then c ∷ rest else rest

abbrev pub or_none : Text → Option Text
or_none [] = none
or_none (c ∷ s) = some (c ∷ s)

pub normalize_callsign : Option Text → Option Text
normalize_callsign none = none
normalize_callsign (some value) = or_none (keep_chars (upper (strip value)))
