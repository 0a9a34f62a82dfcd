-- ===== src/Ingest/Callsigns/Clean.antt =====
-- What `normalize_callsign` leaves is of upper-case letters, digits, slashes and dashes, and is left
-- as it is.
use ham_spectrum_analysis.Prelude.{
  ℕ, ◌≡◌, refl, ap, subst, ◌∙◌, Bool, true, ◌||◌, Option, none, some, [], ◌∷◌, append-nil, map, All,
  ◌==◌, arith,
}
use ham_spectrum_analysis.Text.{
  Text, upper, upper_char, is_space, strip, strip-append_spaces, NoSpace,
}
use ham_spectrum_analysis.Ingest.Callsigns.{
  is_letter, is_ascii_digit, keep_chars, or_none, normalize_callsign, is_valid_callsign,
}

is_clean : ℕ → Bool
is_clean c = is_letter c || is_ascii_digit c || c == b'/' || c == b'-'

keep_chars-clean : (s : Text) → All (λ c. is_clean c ≡ true) (keep_chars (map upper_char s))
unfolding upper_char is_clean
keep_chars-clean [] = tt
keep_chars-clean (c ∷ s) = ground (arith, keep_chars-clean s)

clean-keep_chars : (s : Text) → All (λ c. is_clean c ≡ true) s → keep_chars (map upper_char s) ≡ s
unfolding upper_char is_clean
clean-keep_chars [] h = refl
clean-keep_chars (c ∷ s) h = ground (arith, h, clean-keep_chars s h.1)

clean-NoSpace : (s : Text) → All (λ c. is_clean c ≡ true) s → NoSpace s
unfolding is_clean is_space
clean-NoSpace [] h = tt
clean-NoSpace (c ∷ s) h = ground (arith, h, clean-NoSpace s h.1)

strip-clean : (c : ℕ) (s : Text) → All (λ x. is_clean x ≡ true) (c ∷ s) → strip (c ∷ s) ≡ c ∷ s
strip-clean c s h =
    subst (λ t. strip (c ∷ t) ≡ c ∷ s) (append-nil s)
      (strip-append_spaces c s 0 (clean-NoSpace (c ∷ s) h))

normalize_callsign-clean :
    (value : Option Text) (callsign : Text)
    → normalize_callsign value ≡ some callsign
    → All (λ c. is_clean c ≡ true) callsign
unfolding normalize_callsign upper
normalize_callsign-clean none callsign e = absurd (ground (arith, e))
normalize_callsign-clean (some value) callsign e =
    go (keep_chars (upper (strip value))) (keep_chars-clean (strip value)) e
  where
    go :
        (s : Text)
        → All (λ c. is_clean c ≡ true) s
        → or_none s ≡ some callsign
        → All (λ c. is_clean c ≡ true) callsign
    go [] h e = absurd (ground (arith, e))
    go (c ∷ s) h e = ground (arith, h, e)

-- What passed the check of a callsign, and is its own normal form.
abbrev pub IsNamed : Text → Type 0
IsNamed callsign =
    (is_valid_callsign callsign ≡ true) × (normalize_callsign (some callsign) ≡ some callsign)

clean-normalize_callsign :
    (c : ℕ) (s : Text)
    → All (λ x. is_clean x ≡ true) (c ∷ s)
    → normalize_callsign (some (c ∷ s)) ≡ some (c ∷ s)
unfolding normalize_callsign upper
clean-normalize_callsign c s h =
    ap (λ t. or_none (keep_chars (map upper_char t))) (strip-clean c s h)
    ∙ ap or_none (clean-keep_chars (c ∷ s) h)

or_none-some : (s : Text) → ¬ (or_none s ≡ some [])
or_none-some [] e = absurd (ground (arith, e))
or_none-some (c ∷ s) e = absurd (ground (arith, e))

normalize_callsign-some : (value : Option Text) → ¬ (normalize_callsign value ≡ some [])
unfolding normalize_callsign
normalize_callsign-some none e = absurd (ground (arith, e))
normalize_callsign-some (some value) e = or_none-some (keep_chars (upper (strip value))) e

pub normalize_callsign-fixed :
    (value : Option Text) (callsign : Text)
    → normalize_callsign value ≡ some callsign
    → normalize_callsign (some callsign) ≡ some callsign
normalize_callsign-fixed value [] e = absurd (normalize_callsign-some value e)
normalize_callsign-fixed value (c ∷ s) e =
    clean-normalize_callsign c s (normalize_callsign-clean value (c ∷ s) e)

pub normalize_callsign-none : normalize_callsign none ≡ none
unfolding normalize_callsign
normalize_callsign-none = refl
