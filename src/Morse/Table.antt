-- ===== src/Morse/Table.antt =====
-- The two tables agree.
use ham_spectrum_analysis.Prelude.{
  ℕ, ◌≡◌, refl, ap, sym, ◌∙◌, inl, inr, Bool, true, ◌&&◌, ◌||◌, Bool-cases, Option, none, some,
  List, [], ◌∷◌, all, is_empty, not, arith, ◌==◌, if◌then◌else◌,
}
use ham_spectrum_analysis.Text.{Text, same, same_iff}
use ham_spectrum_analysis.Morse.{
  morse_to_char, overrides, find_symbol, decode_symbol, find_override, find_char, char_to_morse,
}

-- Marks that are sent as dots and dashes.
abbrev pub is_marks : Text → Bool
is_marks m = not (is_empty m) && all (λ x. x == b'.' || x == b'-') m

abbrev agrees : Text → ℕ → Bool
agrees m c = same (decode_symbol m) (c ∷ []) && is_marks m

abbrev entry_agrees : Text × Text → Bool
entry_agrees (m, []) = true
entry_agrees (m, c ∷ []) = agrees m c
entry_agrees (m, c ∷ d ∷ v) = true

overrides_agree : all (λ e. agrees e.1 e.0) overrides ≡ true
unfolding overrides decode_symbol find_symbol morse_to_char same
overrides_agree = refl

entries_agree : all entry_agrees morse_to_char ≡ true
unfolding decode_symbol find_symbol morse_to_char same
entries_agree = refl

all-cons :
    {A : Type 0} (test : A → Bool) (x : A) (xs : List A)
    → all test (x ∷ xs) ≡ true
    → (test x ≡ true) × (all test xs ≡ true)
all-cons test x xs h = ground (arith, h)

find_override-agrees :
    (c : ℕ) (table : List (ℕ × Text)) (m : Text)
    → all (λ e. agrees e.1 e.0) table ≡ true
    → find_override c table ≡ some m
    → agrees m c ≡ true
find_override-agrees c [] m ok e = ground arith
find_override-agrees c ((k, x) ∷ table) m ok e =
    let (head, rest) = all-cons (λ (y : ℕ × Text). agrees y.1 y.0) (k, x) table ok in
    elim (Bool-cases (k == c)) [
      | inl here ↦
          let same_char : k ≡ c = ground (arith, here) in
          let same_marks : x ≡ m = ground (arith, here, e) in
          ap (λ y. agrees y c) (sym same_marks) ∙ ap (agrees x) (sym same_char) ∙ head
      | inr apart ↦ find_override-agrees c table m rest (ground (arith, apart, e))
    ]

find_char-agrees :
    (c : ℕ) (table : List (Text × Text)) (m : Text)
    → all entry_agrees table ≡ true
    → find_char c table ≡ some m
    → agrees m c ≡ true
find_char-agrees c [] m ok e = ground arith
find_char-agrees c ((x, v) ∷ table) m ok e =
    let (head, rest) = all-cons entry_agrees (x, v) table ok in
    go head (find_char c table) (find_char-agrees c table m rest) e
  where
    go :
        entry_agrees (x, v) ≡ true
        → (later : Option Text) → (later ≡ some m → agrees m c ≡ true)
        → elim later [ some y ↦ some y | none ↦ if same v (c ∷ []) then some x else none ] ≡ some m
        → agrees m c ≡ true
    go head (some y) known found = known found
    go head none known found = elim (Bool-cases (same v (c ∷ []))) [
      | inr apart ↦ absurd (ground (arith, apart, found))
      | inl here ↦
          let this : v ≡ c ∷ [] = (same_iff v (c ∷ [])).0 here in
          let same_marks : x ≡ m = ground (arith, here, found) in
          ap (λ y. agrees y c) (sym same_marks) ∙ ap (λ w. entry_agrees (x, w)) (sym this) ∙ head
    ]

both_true : (a b : Bool) → a && b ≡ true → (a ≡ true) × (b ≡ true)
both_true a b h = ground (arith, h)

-- A character that has a code is read back from it, and the code is a text of dots and dashes that
-- is not empty.
pub decode_symbol-char_to_morse :
    (c : ℕ) (m : Text) → char_to_morse c ≡ some m → (decode_symbol m ≡ c ∷ []) × (is_marks m ≡ true)
unfolding char_to_morse
decode_symbol-char_to_morse c m e =
    let agreed =
      go (find_override c overrides) (find_override-agrees c overrides m overrides_agree) e in
    let (reads, marks) = both_true (same (decode_symbol m) (c ∷ [])) (is_marks m) agreed in
    ((same_iff (decode_symbol m) (c ∷ [])).0 reads, marks)
  where
    go :
        (first : Option Text)
        → (first ≡ some m → agrees m c ≡ true)
        → elim first [ some x ↦ some x | none ↦ find_char c morse_to_char ] ≡ some m
        → agrees m c ≡ true
    go (some x) known found = known found
    go none known found = find_char-agrees c morse_to_char m entries_agree found
