-- ===== src/Text.antt =====
-- Python's `str` as a list of code points, with the methods that the modelled code calls on it.
use Prim.Native.Char.{code}
use Prim.Native.String.{String}
use ham_spectrum_analysis.Prelude.{
  ℕ, zero, suc, ◌+◌, ◌-◌, ◌/◌, ◌%◌, ◌≡◌, ◌↔◌, map, Bool, true, false, ◌&&◌, ◌||◌, List, [], ◌∷◌,
  ◌++◌, refl, is_empty, leb, ltb, ◌==◌, if◌then◌else◌, replicate, All, arith, ◌≤◌, sym, ap, ◌∙◌,
  append-nil,
}

abbrev pub Text : Type 0
Text = List ℕ

-- A literal of the source.
abbrev pub codes : String → Text
codes String.[] = []
codes (String.◌∷◌ c s) = code c ∷ codes s

unfoldable pub same : Text → Text → Bool
same [] [] = true
same (a ∷ s) (b ∷ t) = a == b && same s t
same _ _ = false

pub same_self : (s : Text) → same s s ≡ true
unfolding same
same_self [] = refl
same_self (a ∷ s) = ground (arith, same_self s)

pub same_iff : (s t : Text) → (same s t ≡ true) ↔ (s ≡ t)
unfolding same
same_iff [] [] = ground arith
same_iff [] (b ∷ t) = ground arith
same_iff (a ∷ s) [] = ground arith
same_iff (a ∷ s) (b ∷ t) = ground (arith, same_iff s t)

-- `<=` on `str`: by the first character that differs.
unfoldable pub text_leb : Text → Text → Bool
text_leb [] t = true
text_leb (a ∷ s) [] = false
text_leb (a ∷ s) (b ∷ t) = ltb a b || a == b && text_leb s t

-- `str.lower`, for ASCII letters; other characters are kept.
lower_char : ℕ → ℕ
lower_char c = if leb b'A' c && leb c b'Z' then c + 32 else c

unfoldable pub lower : Text → Text
unfolding lower_char
lower s = map lower_char s

-- `str.upper`, likewise.
unfoldable pub upper_char : ℕ → ℕ
upper_char c = if leb b'a' c && leb c b'z' then c - 32 else c

unfoldable pub upper : Text → Text
unfolding upper_char
upper s = map upper_char s

-- The zeros of Unicode's decimal digits, each followed by the other nine, as of Unicode 14.
abbrev digit_blocks : List ℕ
digit_blocks =
    0x30 ∷ 0x660 ∷ 0x6F0 ∷ 0x7C0 ∷ 0x966 ∷ 0x9E6 ∷ 0xA66 ∷ 0xAE6 ∷ 0xB66 ∷ 0xBE6 ∷ 0xC66 ∷ 0xCE6
    ∷ 0xD66 ∷ 0xDE6 ∷ 0xE50 ∷ 0xED0 ∷ 0xF20 ∷ 0x1040 ∷ 0x1090 ∷ 0x17E0 ∷ 0x1810 ∷ 0x1946 ∷ 0x19D0
    ∷ 0x1A80 ∷ 0x1A90 ∷ 0x1B50 ∷ 0x1BB0 ∷ 0x1C40 ∷ 0x1C50 ∷ 0xA620 ∷ 0xA8D0 ∷ 0xA900 ∷ 0xA9D0
    ∷ 0xA9F0 ∷ 0xAA50 ∷ 0xABF0 ∷ 0xFF10 ∷ 0x104A0 ∷ 0x10D30 ∷ 0x11066 ∷ 0x110F0 ∷ 0x11136 ∷ 0x111D0
    ∷ 0x112F0 ∷ 0x11450 ∷ 0x114D0 ∷ 0x11650 ∷ 0x116C0 ∷ 0x11730 ∷ 0x118E0 ∷ 0x11950 ∷ 0x11C50
    ∷ 0x11D50 ∷ 0x11DA0 ∷ 0x16A60 ∷ 0x16AC0 ∷ 0x16B50 ∷ 0x1D7CE ∷ 0x1D7D8 ∷ 0x1D7E2 ∷ 0x1D7EC
    ∷ 0x1D7F6 ∷ 0x1E140 ∷ 0x1E2F0 ∷ 0x1E950 ∷ 0x1FBF0 ∷ []

in_blocks : ℕ → List ℕ → Bool
in_blocks c [] = false
in_blocks c (first ∷ blocks) = (leb first c && leb c (first + 9)) || in_blocks c blocks

-- `str.isdecimal` of one character, which is `\d` of a regular expression too.
unfoldable pub is_decimal : ℕ → Bool
unfolding in_blocks
is_decimal c = in_blocks c digit_blocks

-- `str.isspace` of one character, as `str.strip` uses it.
unfoldable pub is_space : ℕ → Bool
is_space c =
    (leb 9 c && leb c 13)
    || (leb 28 c && leb c 32)
    || c == 0x85
    || c == 0xA0
    || c == 0x1680
    || (leb 0x2000 c && leb c 0x200A)
    || c == 0x2028
    || c == 0x2029
    || c == 0x202F
    || c == 0x205F
    || c == 0x3000

lstrip : Text → Text
lstrip [] = []
lstrip (c ∷ s) = if is_space c then lstrip s else c ∷ s

rstrip : Text → Text
rstrip [] = []
rstrip (c ∷ s) = let rest = rstrip s in if is_empty rest && is_space c then [] else c ∷ rest

unfoldable pub strip : Text → Text
unfolding is_space lstrip rstrip
strip s = rstrip (lstrip s)

-- `str(n)`: the digits are put in front of `seen`. A number has at most as many digits as it
-- counts, so `suc n` rounds suffice.
decimal_from : ℕ → ℕ → Text → Text
decimal_from zero n seen = seen
decimal_from (suc rounds) n seen =
    let rest = decimal_from rounds (n / 10) ((48 + n % 10) ∷ seen) in
    if ltb n 10 then (48 + n) ∷ seen else rest

unfoldable pub decimal : ℕ → Text
unfolding decimal_from
decimal n = decimal_from (suc n) n []

rstrip-replicate : (n : ℕ) → rstrip (replicate n 32) ≡ []
unfolding rstrip is_space
rstrip-replicate zero = refl
rstrip-replicate (suc n) = ground (arith, rstrip-replicate n)

-- Text with no white space in it is kept, and the spaces behind it go.
abbrev pub NoSpace : Text → Type 0
NoSpace = All (λ c. is_space c ≡ false)

rstrip-append_spaces : (s : Text) (n : ℕ) → NoSpace s → rstrip (s ++ replicate n 32) ≡ s
unfolding rstrip
rstrip-append_spaces [] n h = rstrip-replicate n
rstrip-append_spaces (c ∷ s) n h = ground (arith, rstrip-append_spaces s n h.1)

lstrip-cons : (c : ℕ) (s : Text) → is_space c ≡ false → lstrip (c ∷ s) ≡ c ∷ s
unfolding lstrip
lstrip-cons c s h = rw h

strip_lem : (s : Text) → strip s ≡ rstrip (lstrip s)
unfolding strip
strip_lem s = refl

pub strip-append_spaces :
    (c : ℕ) (s : Text) (n : ℕ) → NoSpace (c ∷ s) → strip (c ∷ s ++ replicate n 32) ≡ c ∷ s
strip-append_spaces c s n h =
    rw (strip_lem (c ∷ s ++ replicate n 32), lstrip-cons c (s ++ replicate n 32) h.0)
      (rstrip-append_spaces (c ∷ s) n h)

-- Text of slashes, ASCII digits and capital letters, and of what stands between these, is the same in
-- upper case and without the spaces around it.
abbrev pub IsPlain : Text → Type 0
IsPlain = All (λ c. (b'/' ≤ c) × (c ≤ b'Z'))

is_space_plain : (c : ℕ) → b'/' ≤ c → c ≤ b'Z' → is_space c ≡ false
unfolding is_space
is_space_plain c h k = ground (arith, h, k)

NoSpace-IsPlain : (s : Text) → IsPlain s → NoSpace s
NoSpace-IsPlain [] h = tt
NoSpace-IsPlain (c ∷ s) ((h, k), hs) = (is_space_plain c h k, NoSpace-IsPlain s hs)

upper-IsPlain : (s : Text) → IsPlain s → upper s ≡ s
unfolding upper upper_char
upper-IsPlain [] h = refl
upper-IsPlain (c ∷ s) ((h, k), hs) = grind (arith, h, k, upper-IsPlain s hs)

pub upper-strip_plain : (c : ℕ) (s : Text) → IsPlain (c ∷ s) → upper (strip (c ∷ s)) ≡ c ∷ s
upper-strip_plain c s h =
    ap upper
      (ap strip (sym (append-nil (c ∷ s))) ∙ strip-append_spaces c s 0 (NoSpace-IsPlain (c ∷ s) h))
    ∙ upper-IsPlain (c ∷ s) h

pub strip-upper_plain : (c : ℕ) (s : Text) → IsPlain (c ∷ s) → strip (upper (c ∷ s)) ≡ c ∷ s
strip-upper_plain c s h =
    ap strip (upper-IsPlain (c ∷ s) h ∙ sym (append-nil (c ∷ s)))
    ∙ strip-append_spaces c s 0 (NoSpace-IsPlain (c ∷ s) h)
