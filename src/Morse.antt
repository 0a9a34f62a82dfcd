-- ===== src/Morse.antt =====
-- CW text: the tables of backend/app/decoders/cw/morse_table.py, and `morse_sequence_to_text` of
-- backend/app/decoders/cw/decoder.py.
pub mod Table
pub mod Word
mod Tests
use ham_spectrum_analysis.Prelude.{
  ℕ, ◌+◌, Bool, true, false, Option, none, some, List, [], ◌∷◌, ◌++◌, map, is_empty, ◌==◌,
  if◌then◌else◌,
}
use ham_spectrum_analysis.Text.{Text, codes, same, strip, is_space}

unfoldable pub morse_to_char : List (Text × Text)
morse_to_char =
    (codes ".-", codes "A")
    ∷ (codes "-...", codes "B")
    ∷ (codes "-.-.", codes "C")
    ∷ (codes "-..", codes "D")
    ∷ (codes ".", codes "E")
    ∷ (codes "..-.", codes "F")
    ∷ (codes "--.", codes "G")
    ∷ (codes "....", codes "H")
    ∷ (codes "..", codes "I")
    ∷ (codes ".---", codes "J")
    ∷ (codes "-.-", codes "K")
    ∷ (codes ".-..", codes "L")
    ∷ (codes "--", codes "M")
    ∷ (codes "-.", codes "N")
    ∷ (codes "---", codes "O")
    ∷ (codes ".--.", codes "P")
    ∷ (codes "--.-", codes "Q")
    ∷ (codes ".-.", codes "R")
    ∷ (codes "...", codes "S")
    ∷ (codes "-", codes "T")
    ∷ (codes "..-", codes "U")
    ∷ (codes "...-", codes "V")
    ∷ (codes ".--", codes "W")
    ∷ (codes "-..-", codes "X")
    ∷ (codes "-.--", codes "Y")
    ∷ (codes "--..", codes "Z")
    ∷ (codes ".----", codes "1")
    ∷ (codes "..---", codes "2")
    ∷ (codes "...--", codes "3")
    ∷ (codes "....-", codes "4")
    ∷ (codes ".....", codes "5")
    ∷ (codes "-....", codes "6")
    ∷ (codes "--...", codes "7")
    ∷ (codes "---..", codes "8")
    ∷ (codes "----.", codes "9")
    ∷ (codes "-----", codes "0")
    ∷ (codes ".-.-.-", codes ".")
    ∷ (codes "--..--", codes ",")
    ∷ (codes "..--..", codes "?")
    ∷ (codes ".----.", codes "'")
    ∷ (codes "-.-.--", codes "!")
    ∷ (codes "-..-.", codes "/")
    ∷ (codes "-.--.", codes "(")
    ∷ (codes "-.--.-", codes ")")
    ∷ (codes ".-...", codes "&")
    ∷ (codes "---...", codes ":")
    ∷ (codes "-.-.-.", codes ";")
    ∷ (codes "-...-", codes "=")
    ∷ (codes ".-.-.", codes "+")
    ∷ (codes "-....-", codes "-")
    ∷ (codes "..--.-", codes "_")
    ∷ (codes ".-..-.", 34 ∷ [])
    ∷ (codes "...-..-", codes "$")
    ∷ (codes ".--.-.", codes "@")
    ∷ (codes "...---...", codes "SOS")
    ∷ (codes ".-.-", codes "AA")
    ∷ (codes "-.-.-", codes "CT")
    ∷ (codes "...-.-", codes "SK")
    ∷ (codes "...-.", codes "SN")
    ∷ []

-- The entries that `CHAR_TO_MORSE.update` sets.
unfoldable pub overrides : List (ℕ × Text)
overrides =
    (b'A', codes ".-")
    ∷ (b'B', codes "-...")
    ∷ (b'C', codes "-.-.")
    ∷ (b'D', codes "-..")
    ∷ (b'E', codes ".")
    ∷ (b'F', codes "..-.")
    ∷ (b'G', codes "--.")
    ∷ (b'H', codes "....")
    ∷ (b'I', codes "..")
    ∷ (b'J', codes ".---")
    ∷ (b'K', codes "-.-")
    ∷ (b'L', codes ".-..")
    ∷ (b'M', codes "--")
    ∷ (b'N', codes "-.")
    ∷ (b'O', codes "---")
    ∷ (b'P', codes ".--.")
    ∷ (b'Q', codes "--.-")
    ∷ (b'R', codes ".-.")
    ∷ (b'S', codes "...")
    ∷ (b'T', codes "-")
    ∷ (b'U', codes "..-")
    ∷ (b'V', codes "...-")
    ∷ (b'W', codes ".--")
    ∷ (b'X', codes "-..-")
    ∷ (b'Y', codes "-.--")
    ∷ (b'Z', codes "--..")
    ∷ (b'1', codes ".----")
    ∷ (b'2', codes "..---")
    ∷ (b'3', codes "...--")
    ∷ (b'4', codes "....-")
    ∷ (b'5', codes ".....")
    ∷ (b'6', codes "-....")
    ∷ (b'7', codes "--...")
    ∷ (b'8', codes "---..")
    ∷ (b'9', codes "----.")
    ∷ (b'0', codes "-----")
    ∷ (b'/', codes "-..-.")
    ∷ (b'?', codes "..--..")
    ∷ (b'.', codes ".-.-.-")
    ∷ (b',', codes "--..--")
    ∷ []

unfoldable pub find_symbol : Text → List (Text × Text) → Option Text
find_symbol symbol [] = none
find_symbol symbol ((k, v) ∷ table) =
    let rest = find_symbol symbol table in if same k symbol then some v else rest

unfoldable pub decode_symbol : Text → Text
unfolding find_symbol
decode_symbol symbol = elim (find_symbol symbol morse_to_char) [ none ↦ codes "?" | some c ↦ c ]

abbrev pub find_override : ℕ → List (ℕ × Text) → Option Text
find_override c [] = none
find_override c ((k, m) ∷ table) =
    let rest = find_override c table in if k == c then some m else rest

-- `{v: k for k, v in MORSE_TO_CHAR.items() if len(v) == 1}`, where a later entry wins.
abbrev pub find_char : ℕ → List (Text × Text) → Option Text
find_char c [] = none
find_char c ((m, v) ∷ table) = elim (find_char c table) [
  | some later ↦ some later
  | none ↦ if same v (c ∷ []) then some m else none
]

unfoldable pub char_to_morse : ℕ → Option Text
char_to_morse c = elim (find_override c overrides) [
  | some m ↦ some m
  | none ↦ find_char c morse_to_char
]

-- The symbols that the timing analysis emits.
pub data Symbol : Type 0 where
  dit dah gap word_gap : Symbol

-- The loop's variables.
pub record Decoding : Type 0 where
  pub text_chars : Text
  pub unknown_count : ℕ
  pub current_symbol : Text
  pub morse_parts : List Text

abbrev pub fresh : Decoding
fresh = record { text_chars = []; unknown_count = 0; current_symbol = []; morse_parts = [] }

-- The collected marks, if there are any, become a character.
unfoldable pub end_character : Decoding → Decoding
end_character d =
    let ch = decode_symbol d.current_symbol in
    if is_empty d.current_symbol then d else record {
      text_chars = d.text_chars ++ ch;
      unknown_count = if same ch (codes "?") then d.unknown_count + 1 else d.unknown_count;
      current_symbol = [];
      morse_parts = d.morse_parts ++ d.current_symbol ∷ [];
    }

unfoldable pub hear : Decoding → Symbol → Decoding
hear d dit = record d { current_symbol = d.current_symbol ++ b'.' ∷ [] }
hear d dah = record d { current_symbol = d.current_symbol ++ b'-' ∷ [] }
hear d gap = end_character d
hear d word_gap =
    let ended = end_character d in
    record ended {
      text_chars = ended.text_chars ++ b' ' ∷ [];
      morse_parts = ended.morse_parts ++ (b'/' ∷ []) ∷ [];
    }

abbrev pub hear_all : Decoding → List Symbol → Decoding
hear_all d [] = d
hear_all d (s ∷ symbols) = hear_all (hear d s) symbols

-- `" ".join(morse_parts)`
abbrev pub join : List Text → Text
join [] = []
join (part ∷ []) = part
join (part ∷ parts) = part ++ b' ' ∷ join parts

-- The text, the raw string and the count of unknown characters.
unfoldable pub morse_sequence_to_text : List Symbol → Text × Text × ℕ
morse_sequence_to_text symbols =
    let d = end_character (hear_all fresh symbols) in
    (strip d.text_chars, join d.morse_parts, d.unknown_count)
