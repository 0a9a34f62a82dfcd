-- ===== src/Morse/Tests.antt =====
-- The word "CQ?" as it is sent and read.
use ham_spectrum_analysis.Prelude.{ℕ, ◌≡◌, refl, some, List, [], ◌∷◌, All, arith}
use ham_spectrum_analysis.Text.{Text, codes, same, is_space, NoSpace}
use ham_spectrum_analysis.Morse.{overrides, char_to_morse, join, morse_sequence_to_text}
use ham_spectrum_analysis.Morse.Word.{
  Encodes, chars, symbols_of, send, count_unknown, morse_sequence_to_text-send,
}

abbrev rest : List (ℕ × Text)
rest = (b'Q', codes "--.-") ∷ (b'?', codes "..--..") ∷ []

code_of_c : char_to_morse b'C' ≡ some (codes "-.-.")
unfolding char_to_morse overrides
code_of_c = refl

word_codes : All Encodes ((b'C', codes "-.-.") ∷ rest)
unfolding char_to_morse overrides
word_codes = (refl, (refl, (refl, tt)))

word_visible : NoSpace (chars ((b'C', codes "-.-.") ∷ rest))
unfolding is_space
word_visible = ground arith

word_example : morse_sequence_to_text (send (symbols_of ((b'C', codes "-.-.") ∷ rest))) ≡ (
  chars ((b'C', codes "-.-.") ∷ rest),
  join (symbols_of ((b'C', codes "-.-.") ∷ rest)),
  count_unknown ((b'C', codes "-.-.") ∷ rest),
)
word_example = morse_sequence_to_text-send b'C' (codes "-.-.") rest word_codes word_visible

-- The question mark that was read is counted as an unknown character.
one_unknown : count_unknown ((b'C', codes "-.-.") ∷ rest) ≡ 1
unfolding same
one_unknown = refl
