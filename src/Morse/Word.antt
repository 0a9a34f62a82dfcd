-- ===== src/Morse/Word.antt =====
-- A word that is sent is read.
use ham_spectrum_analysis.Prelude.{
  ℕ, ◌+◌, ◌≡◌, refl, ap, sym, ◌∙◌, inl, inr, Bool, true, false, ◌||◌, Bool-cases, some, List, [],
  ◌∷◌, ◌++◌, append-nil, append_assoc, map, all, All, is_empty, arith, ◌==◌, if◌then◌else◌,
}
use ham_spectrum_analysis.Text.{Text, codes, same, strip, NoSpace, strip-append_spaces}
use ham_spectrum_analysis.Morse.{
  char_to_morse, Symbol, dit, dah, gap, Decoding, end_character, hear, hear_all, join,
  morse_sequence_to_text,
}
use ham_spectrum_analysis.Morse.Table.{decode_symbol-char_to_morse}

-- The marks of one character, and a word with a gap behind each character.
abbrev pub marks : Text → List Symbol
marks [] = []
marks (x ∷ m) = (if x == b'.' then dit else dah) ∷ marks m

abbrev pub send : List Text → List Symbol
send [] = []
send (m ∷ ms) = marks m ++ (gap ∷ send ms)

abbrev pub is_code : Text → Bool
is_code m = all (λ x. x == b'.' || x == b'-') m

hear-mark :
    (x : ℕ) (d : Decoding)
    → (x == b'.' || x == b'-') ≡ true
    → hear d (if x == b'.' then dit else dah)
      ≡ record d { current_symbol = d.current_symbol ++ x ∷ [] }
unfolding hear
hear-mark x d ok = elim (Bool-cases (x == b'.')) [
  | inl here ↦
      rw here
        (ap (λ y. record d { current_symbol = d.current_symbol ++ y ∷ [] }) (ground (arith, here)))
  | inr other ↦ rw other (
      ap (λ y. record d { current_symbol = d.current_symbol ++ y ∷ [] })
        (ground (arith, other, ok)))
]

hear_all-marks :
    (m : Text) (symbols : List Symbol) (d : Decoding)
    → is_code m ≡ true
    → hear_all d (marks m ++ symbols)
      ≡ hear_all (record d { current_symbol = d.current_symbol ++ m }) symbols
unfolding hear
hear_all-marks [] symbols d ok =
    ap (λ s. hear_all (record d { current_symbol = s }) symbols) (sym (append-nil d.current_symbol))
hear_all-marks (x ∷ m) symbols d ok =
    ap (λ e. hear_all e (marks m ++ symbols)) (hear-mark x d (ground (arith, ok)))
    ∙ hear_all-marks m symbols (record d { current_symbol = d.current_symbol ++ x ∷ [] })
        (ground (arith, ok))
    ∙ ap (λ s. hear_all (record d { current_symbol = s }) symbols)
        (append_assoc d.current_symbol (x ∷ []) m)

-- A character with its code.
abbrev pub Encodes : ℕ × Text → Type 0
Encodes e = char_to_morse e.0 ≡ some e.1

abbrev pub count_unknown : List (ℕ × Text) → ℕ
count_unknown [] = 0
count_unknown ((c, m) ∷ word) =
    let rest = count_unknown word in if same (c ∷ []) (codes "?") then rest + 1 else rest

abbrev pub chars : List (ℕ × Text) → Text
chars word = map (λ e. e.0) word

abbrev pub symbols_of : List (ℕ × Text) → List Text
symbols_of word = map (λ e. e.1) word

end_character-code :
    (c : ℕ) (m : Text) (d : Decoding)
    → char_to_morse c ≡ some m
    → end_character (record d { current_symbol = m }) ≡ record d {
      text_chars = d.text_chars ++ c ∷ [];
      unknown_count = if same (c ∷ []) (codes "?") then d.unknown_count + 1 else d.unknown_count;
      current_symbol = [];
      morse_parts = d.morse_parts ++ m ∷ [];
    }
unfolding end_character
end_character-code c m d e =
    let (reads, marked) = decode_symbol-char_to_morse c m e in
    let filled : is_empty m ≡ false = ground (arith, marked) in rw (filled, reads) refl

abbrev heard : Text → ℕ → List Text → Decoding
heard text unknown parts = record {
  text_chars = text;
  unknown_count = unknown;
  current_symbol = [];
  morse_parts = parts;
}

heard_cong :
    {t t' : Text} {u u' : ℕ} {p p' : List Text}
    → t ≡ t'
    → u ≡ u'
    → p ≡ p'
    → heard t u p ≡ heard t' u' p'
heard_cong {t' = t'} {u = u} {u' = u'} {p = p} et eu ep =
    ap (λ x. heard x u p) et ∙ ap (λ x. heard t' x p) eu ∙ ap (λ x. heard t' u' x) ep

-- What hearing a word leaves.
hear_all-send :
    (word : List (ℕ × Text)) (t : Text) (u : ℕ) (p : List Text)
    → All Encodes word
    → hear_all (heard t u p) (send (symbols_of word))
      ≡ heard (t ++ chars word) (u + count_unknown word) (p ++ symbols_of word)
unfolding hear
hear_all-send [] t u p h = heard_cong (sym (append-nil t)) (omega arith) (sym (append-nil p))
hear_all-send ((c, m) ∷ word) t u p h =
    let rest = send (symbols_of word) in
    let (reads, marked) = decode_symbol-char_to_morse c m h.0 in
    let unknown = if same (c ∷ []) (codes "?") then u + 1 else u in
    hear_all-marks m (gap ∷ rest) (heard t u p) (ground (arith, marked))
    ∙ ap (λ e. hear_all e rest) (end_character-code c m (heard t u p) h.0)
    ∙ hear_all-send word (t ++ c ∷ []) unknown (p ++ m ∷ []) h.1
    ∙ heard_cong (append_assoc t (c ∷ []) (chars word)) (ground arith)
        (append_assoc p (m ∷ []) (symbols_of word))

-- A word of characters that have codes, sent with a gap behind each character, is read back, with
-- its codes as the raw string; but every question mark in it, which is a character of the table, is
-- counted as unknown.
pub morse_sequence_to_text-send :
    (c : ℕ) (m : Text) (word : List (ℕ × Text))
    → All Encodes ((c, m) ∷ word)
    → NoSpace (chars ((c, m) ∷ word))
    → morse_sequence_to_text (send (symbols_of ((c, m) ∷ word)))
      ≡ (chars ((c, m) ∷ word), join (symbols_of ((c, m) ∷ word)), count_unknown ((c, m) ∷ word))
unfolding morse_sequence_to_text end_character
morse_sequence_to_text-send c m word h visible =
    let spaces = strip-append_spaces c (chars word) 0 visible in
    let kept : strip (c ∷ chars word) ≡ c ∷ chars word =
      ap (λ s. strip (c ∷ s)) (sym (append-nil (chars word))) ∙ spaces in
    let raw = join (symbols_of ((c, m) ∷ word)) in
    let unknown = count_unknown ((c, m) ∷ word) in
    let none_before : 0 + unknown ≡ unknown = omega arith in
    rw (hear_all-send ((c, m) ∷ word) [] 0 [] h) (
      ap (λ (s : Text). (s, raw, 0 + unknown)) kept
      ∙ ap (λ (n : ℕ). (chars ((c, m) ∷ word), raw, n)) none_before)
