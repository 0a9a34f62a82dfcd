-- ===== src/Ingest/Callsigns/Shape.antt =====
-- What a text has to look like to pass as a callsign.
use ham_spectrum_analysis.Prelude.{
  ℕ, zero, suc, ◌+◌, ◌-◌, ◌≡◌, ◌≤◌, ◌⊎◌, ◌∙◌, inl, inr, refl, sym, ap, subst, Bool, true, false,
  ◌&&◌, ◌||◌, List, [], ◌∷◌, ◌++◌, append_assoc, length, length-append, In, In-append_cases, any,
  leb, ◌==◌, if◌then◌else◌, arith, Bool-cases, min, max,
}
use ham_spectrum_analysis.Text.{Text, is_decimal}
use ham_spectrum_analysis.Ingest.Callsigns.{
  Class, letter, digit, alnum, slash, is_letter, in_class, Regex, chars, seq, alt, optional,
  behind_chars, flat_map, behind, at_end, valid_callsign_re, before_dash, is_valid_upper,
}

min_len : Regex → ℕ
min_len (chars p lo hi) = lo
min_len (seq a b) = min_len a + min_len b
min_len (alt a b) = min (min_len a) (min_len b)
min_len (optional a) = 0

max_len : Regex → ℕ
max_len (chars p lo hi) = hi
max_len (seq a b) = max_len a + max_len b
max_len (alt a b) = max (max_len a) (max_len b)
max_len (optional a) = max_len a

abbrev is_class : Class → Class → Bool
is_class letter letter = true
is_class digit digit = true
is_class _ _ = false

-- Does every match have a character of the class?
needs : Class → Regex → Bool
needs p (chars q lo hi) = is_class p q && leb 1 lo
needs p (seq a b) = needs p a || needs p b
needs p (alt a b) = needs p a && needs p b
needs p (optional a) = false

-- What a match has taken from the text in front of its rest.
abbrev Taken : Regex → (pre : Text) → Type 0
Taken r pre =
    (min_len r ≤ length pre)
    × (length pre ≤ max_len r)
    × (needs letter r ≡ true → any is_letter pre ≡ true)
    × (needs digit r ≡ true → any is_decimal pre ≡ true)

abbrev IsMatch : Regex → (s rest : Text) → Type 0
IsMatch r s rest = (pre : Text) × (s ≡ pre ++ rest) × Taken r pre

In-if_nil :
    (b : Bool) (s rest : Text) → In rest (if b then s ∷ [] else []) → (b ≡ true) × (rest ≡ s)
In-if_nil true s rest (inl e) = (refl, e)
In-if_nil true s rest (inr m) = absurd m
In-if_nil false s rest m = absurd m

any-append : (p : ℕ → Bool) (xs ys : Text) → any p (xs ++ ys) ≡ any p xs || any p ys
any-append p [] ys = refl
any-append p (x ∷ xs) ys = ground (arith, any-append p xs ys)

module _ (p : Class) where
  -- A run of characters of the class.
  abbrev IsRun : (lo hi : ℕ) → (s rest : Text) → Type 0
  IsRun lo hi s rest =
      (pre : Text) × (s ≡ pre ++ rest)
      × (lo ≤ length pre)
      × (length pre ≤ hi)
      × ((1 ≤ lo) → any (in_class p) pre ≡ true)

  nothing-IsRun :
      (lo hi : ℕ) (s rest : Text) → In rest (if lo == 0 then s ∷ [] else []) → IsRun lo hi s rest
  nothing-IsRun lo hi s rest m =
      let (optional_, e) = In-if_nil (lo == 0) s rest m in
      ([], sym e, ground (arith, optional_), omega arith, ground (arith, optional_))

  more-IsRun :
      (b : Bool) (lo hi c : ℕ) (s rest : Text) (longer : List Text)
      → in_class p c ≡ b
      → (In rest longer → IsRun (lo - 1) hi s rest)
      → In rest (
          if b
          then longer ++ (if lo == 0 then (c ∷ s) ∷ [] else [])
          else (if lo == 0 then (c ∷ s) ∷ [] else []))
      → IsRun lo (suc hi) (c ∷ s) rest
  more-IsRun false lo hi c s rest longer e k m = nothing-IsRun lo (suc hi) (c ∷ s) rest m
  more-IsRun true lo hi c s rest longer e k m =
      elim (In-append_cases rest longer (if lo == 0 then (c ∷ s) ∷ [] else []) m) [
        | inr h ↦ nothing-IsRun lo (suc hi) (c ∷ s) rest h
        | inl h ↦
            let (pre, split, least, most, _) = k h in
            (
              c ∷ pre,
              ap (λ t. c ∷ t) split,
              omega (arith, least),
              omega (arith, most),
              λ _. ground (arith, e),
            )
      ]

  behind_chars-IsRun :
      (lo hi : ℕ) (s rest : Text) → In rest (behind_chars p lo hi s) → IsRun lo hi s rest
  behind_chars-IsRun lo zero s rest m = nothing-IsRun lo zero s rest m
  behind_chars-IsRun lo (suc hi) [] rest m = nothing-IsRun lo (suc hi) [] rest m
  behind_chars-IsRun lo (suc hi) (c ∷ s) rest m =
      more-IsRun (in_class p c) lo hi c s rest (behind_chars p (lo - 1) hi s) refl
        (behind_chars-IsRun (lo - 1) hi s rest) m

-- A rest behind one of the rests.
In-flat_map :
    (f : Text → List Text) (rest : Text) (rests : List Text)
    → In rest (flat_map f rests)
    → (middle : Text) × In middle rests × In rest (f middle)
In-flat_map f rest [] m = absurd m
In-flat_map f rest (s ∷ rests) m = elim (In-append_cases rest (f s) (flat_map f rests) m) [
  | inl h ↦ (s, inl refl, h)
  | inr h ↦ let (middle, n, k) = In-flat_map f rest rests h in (middle, inr n, k)
]

Taken-chars :
    (p : Class) (lo hi : ℕ) (s rest : Text) → IsRun p lo hi s rest → IsMatch (chars p lo hi) s rest
unfolding min_len max_len needs
Taken-chars letter lo hi s rest (pre, split, least, most, has) =
    (pre, split, (least, most, ground (arith, has), λ q. absurd (ground (arith, q))))
Taken-chars digit lo hi s rest (pre, split, least, most, has) =
    (pre, split, (least, most, λ q. absurd (ground (arith, q)), ground (arith, has)))
Taken-chars alnum lo hi s rest (pre, split, least, most, has) =
    (pre, split, (least, most, λ q. absurd (ground (arith, q)), λ q. absurd (ground (arith, q))))
Taken-chars slash lo hi s rest (pre, split, least, most, has) =
    (pre, split, (least, most, λ q. absurd (ground (arith, q)), λ q. absurd (ground (arith, q))))

Taken-seq : (a b : Regex) (xs ys : Text) → Taken a xs → Taken b ys → Taken (seq a b) (xs ++ ys)
unfolding min_len max_len needs
Taken-seq a b xs ys h k =
    ground
      (arith, h, k, length-append xs ys, any-append is_letter xs ys, any-append is_decimal xs ys)

Taken-left : (a b : Regex) (pre : Text) → Taken a pre → Taken (alt a b) pre
unfolding min_len max_len needs
Taken-left a b pre h = ground (arith, h)

Taken-right : (a b : Regex) (pre : Text) → Taken b pre → Taken (alt a b) pre
unfolding min_len max_len needs
Taken-right a b pre h = ground (arith, h)

Taken-optional : (a : Regex) (pre : Text) → (Taken a pre) ⊎ (pre ≡ []) → Taken (optional a) pre
unfolding min_len max_len needs
Taken-optional a pre (inl h) = ground (arith, h)
Taken-optional a pre (inr e) = ground (arith, ap length e)

behind-IsMatch : (r : Regex) (s rest : Text) → In rest (behind r s) → IsMatch r s rest
behind-IsMatch (chars p lo hi) s rest m =
    Taken-chars p lo hi s rest (behind_chars-IsRun p lo hi s rest m)
behind-IsMatch (seq a b) s rest m =
    let (middle, n, k) = In-flat_map (behind b) rest (behind a s) m in
    let (xs, split, h) = behind-IsMatch a s middle n in
    let (ys, split_on, j) = behind-IsMatch b middle rest k in
    (
      xs ++ ys,
      split ∙ ap (λ t. xs ++ t) split_on ∙ sym (append_assoc xs ys rest),
      Taken-seq a b xs ys h j,
    )
behind-IsMatch (alt a b) s rest m = elim (In-append_cases rest (behind a s) (behind b s) m) [
  | inl n ↦ let (pre, split, h) = behind-IsMatch a s rest n in (pre, split, Taken-left a b pre h)
  | inr n ↦ let (pre, split, h) = behind-IsMatch b s rest n in (pre, split, Taken-right a b pre h)
]
behind-IsMatch (optional a) s rest m = elim (In-append_cases rest (behind a s) (s ∷ []) m) [
  | inl n ↦
      let (pre, split, h) = behind-IsMatch a s rest n in (pre, split, Taken-optional a pre (inl h))
  | inr (inl e) ↦ ([], sym e, Taken-optional a [] (inr refl))
  | inr (inr n) ↦ absurd n
]

any-In : (p : Text → Bool) (xs : List Text) → any p xs ≡ true → (x : Text) × In x xs × (p x ≡ true)
any-In p [] h = absurd (ground (arith, h))
any-In p (x ∷ xs) h = elim (Bool-cases (p x)) [
  | inl e ↦ (x, inl refl, e)
  | inr e ↦ let (y, m, q) = any-In p xs (ground (arith, h, e)) in (y, inr m, q)
]

length-at_end : (s : Text) → at_end s ≡ true → length s ≤ 1
length-at_end [] h = omega arith
length-at_end (c ∷ []) h = omega arith
length-at_end (c ∷ d ∷ s) h = absurd (ground (arith, h))

-- A letter, a digit, and a length that a callsign can have.
abbrev pub IsPlausible : Text → Type 0
IsPlausible base =
    (any is_letter base ≡ true)
    × (any is_decimal base ≡ true)
    × (3 ≤ length base)
    × (length base ≤ 16)

-- What passes as a callsign, once it is in upper case, has in front of its first dash a letter from A to
-- Z, a decimal digit, and 3 to 16 characters, of which the last may be a newline: no number and no word
-- alone passes.
pub is_valid_upper-IsPlausible :
    (uppercased : Text) → is_valid_upper uppercased ≡ true → IsPlausible (before_dash uppercased)
unfolding is_valid_upper min_len max_len needs
is_valid_upper-IsPlausible uppercased h =
    let base = before_dash uppercased in
    let (rest, m, ended) = any-In at_end (behind valid_callsign_re base) h in
    let (pre, split, (least, most, letters, digits)) =
      behind-IsMatch valid_callsign_re base rest m in
    let short = length-at_end rest ended in
    subst IsPlausible (sym split) (
      ground (arith, letters refl, any-append is_letter pre rest),
      ground (arith, digits refl, any-append is_decimal pre rest),
      omega (arith, least, length-append pre rest),
      omega (arith, most, short, length-append pre rest),
    )
