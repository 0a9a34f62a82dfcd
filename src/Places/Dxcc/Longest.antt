-- ===== src/Places/Dxcc/Longest.antt =====
-- The entity of the longest prefix.
use ham_spectrum_analysis.Prelude.{
  ℕ, zero, suc, ◌≡◌, ◌≤◌, ◌<◌, ◌∙◌, inl, inr, refl, ap, Option, none, some, ◌∷◌, length, take, ◌==◌,
  min, arith, Bool-cases,
}
use ham_spectrum_analysis.Text.{Text}
use ham_spectrum_analysis.Places.Dxcc.{
  Index, load_dxcc_index, or_else, longest_match, base_of, callsign_to_dxcc,
}

module _ {A : Type 0} (index : Index A) (cs : Text) where
  -- No prefix of more than `n` and at most `most` characters is in the index.
  abbrev pub NoneAbove : (n most : ℕ) → Type 0
  NoneAbove n most = (m : ℕ) → n < m → m ≤ most → index (take m cs) ≡ none

  abbrev pub IsLongest : (most : ℕ) → Option A → Type 0
  IsLongest most (some a) =
      (n : ℕ) × (1 ≤ n) × (n ≤ most) × (index (take n cs) ≡ some a) × NoneAbove n most
  IsLongest most none = NoneAbove 0 most

  NoneAbove-suc :
      (n most : ℕ) → index (take (suc most) cs) ≡ none → NoneAbove n most → NoneAbove n (suc most)
  NoneAbove-suc n most e h m l u = elim (Bool-cases (m == suc most)) [
    | inl q ↦ ap (λ k. index (take k cs)) {y = suc most} (ground (arith, q)) ∙ e
    | inr q ↦ h m l (ground (arith, q, u))
  ]

  IsLongest-suc :
      (most : ℕ) (r : Option A)
      → index (take (suc most) cs) ≡ none
      → IsLongest most r
      → IsLongest (suc most) r
  IsLongest-suc most none e h = NoneAbove-suc 0 most e h
  IsLongest-suc most (some a) e (n, least, small, found, none_above) =
      (n, least, omega (arith, small), found, NoneAbove-suc n most e none_above)

  or_else-IsLongest :
      (most : ℕ) (o r : Option A)
      → index (take (suc most) cs) ≡ o
      → IsLongest most r
      → IsLongest (suc most) (or_else o r)
  or_else-IsLongest most (some a) r e h =
      (suc most, omega arith, omega arith, e, λ m l u. absurd (omega (arith, l, u)))
  or_else-IsLongest most none r e h = IsLongest-suc most r e h

  longest_match-IsLongest : (most : ℕ) → IsLongest most (longest_match index cs most)
  longest_match-IsLongest zero = λ m l u. absurd (omega (arith, l, u))
  longest_match-IsLongest (suc most) =
      or_else-IsLongest most (index (take (suc most) cs)) (longest_match index cs most) refl
        (longest_match-IsLongest most)

-- A callsign that is not empty gets the entity of the longest prefix, of one to five characters, that
-- the index has of its base, or none where the index has no such prefix, and the index that was read
-- or found is kept.
pub callsign_to_dxcc-IsLongest :
    {A : Type 0} (read cached : Option (Index A)) (c : ℕ) (s : Text)
    → let (result, kept) = callsign_to_dxcc read cached (c ∷ s) in
      let base = base_of (c ∷ s) in
      IsLongest (load_dxcc_index read cached) base (min (length base) 5) result
      × (kept ≡ some (load_dxcc_index read cached))
unfolding callsign_to_dxcc
callsign_to_dxcc-IsLongest read cached c s =
    let base = base_of (c ∷ s) in
    (longest_match-IsLongest (load_dxcc_index read cached) base (min (length base) 5), refl)
