-- ===== src/Places/Dxcc/Portable.antt =====
-- A callsign with a portable suffix.
use ham_spectrum_analysis.Prelude.{
  ℕ, ◌≡◌, ◌≤◌, ◌∙◌, inl, inr, refl, sym, ap, true, Option, List, [], ◌∷◌, ◌++◌, any, All,
  All-append, In, In-All, arith,
}
use ham_spectrum_analysis.Text.{Text, same, same_self, IsPlain, strip-upper_plain}
use ham_spectrum_analysis.Places.Dxcc.{
  Index, portable_suffixes, strip_suffix, base_of, callsign_to_dxcc,
}

-- ASCII digits and capital letters: no slash.
abbrev pub IsBase : Text → Type 0
IsBase = All (λ c. (b'0' ≤ c) × (c ≤ b'Z'))

IsPlain-IsBase : (s : Text) → IsBase s → IsPlain s
IsPlain-IsBase [] h = tt
IsPlain-IsBase (c ∷ s) ((h, k), hs) = ((omega (arith, h), k), IsPlain-IsBase s hs)

suffixes-IsPlain : All IsPlain portable_suffixes
suffixes-IsPlain = ground arith

any-same : (s : Text) (ts : List Text) → In s ts → any (same s) ts ≡ true
any-same s (t ∷ ts) (inl e) = ground (arith, ap (same s) e, same_self s)
any-same s (t ∷ ts) (inr m) = ground (arith, any-same s ts m)
any-same s [] m = absurd m

strip_suffix-IsBase : (s : Text) → IsBase s → strip_suffix s ≡ s
unfolding strip_suffix
strip_suffix-IsBase [] h = refl
strip_suffix-IsBase (c ∷ s) (h, hs) = ground (arith, h, strip_suffix-IsBase s hs)

strip_suffix-append :
    (s suffix : Text)
    → IsBase s
    → In suffix portable_suffixes
    → strip_suffix (s ++ b'/' ∷ suffix) ≡ s
unfolding strip_suffix
strip_suffix-append [] suffix h m = rw (any-same suffix portable_suffixes m) refl
strip_suffix-append (c ∷ s) suffix (h, hs) m = ground (arith, h, strip_suffix-append s suffix hs m)

base_of-append :
    (c : ℕ) (s suffix : Text)
    → IsBase (c ∷ s)
    → In suffix portable_suffixes
    → base_of (c ∷ s ++ b'/' ∷ suffix) ≡ base_of (c ∷ s)
base_of-append c s suffix h m =
    let plain = IsPlain-IsBase (c ∷ s) h in
    let tail : IsPlain (b'/' ∷ suffix) =
      ((omega arith, omega arith), In-All IsPlain suffix portable_suffixes suffixes-IsPlain m) in
    ap strip_suffix (
      strip-upper_plain c (s ++ b'/' ∷ suffix)
        (All-append (λ k. (b'/' ≤ k) × (k ≤ b'Z')) (c ∷ s) (b'/' ∷ suffix) plain tail))
    ∙ strip_suffix-append (c ∷ s) suffix h m
    ∙ sym (ap strip_suffix (strip-upper_plain c s plain) ∙ strip_suffix-IsBase (c ∷ s) h)

-- A callsign of digits and capital letters with one of the suffixes behind a slash gets the answer, and
-- leaves the index, of the callsign without it.
pub callsign_to_dxcc-append :
    {A : Type 0} (read cached : Option (Index A)) (c : ℕ) (s suffix : Text)
    → IsBase (c ∷ s)
    → In suffix portable_suffixes
    → callsign_to_dxcc read cached (c ∷ s ++ b'/' ∷ suffix) ≡ callsign_to_dxcc read cached (c ∷ s)
unfolding callsign_to_dxcc
callsign_to_dxcc-append read cached c s suffix h m = rw (base_of-append c s suffix h m) refl
