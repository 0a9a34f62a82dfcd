-- ===== src/Ingest/Bands/Agreement.antt =====
-- No frequency lies in two bands of a table, and the tables do not name one frequency differently.
use ham_spectrum_analysis.Prelude.{
  ℕ, ◌≡◌, ◌≤◌, ◌↔◌, inl, inr, refl, sym, ap, subst, ◌∙◌, Bool, true, none, some, List, [], ◌∷◌, In,
  ltb, ◌==◌, all, arith, Bool-cases, ==_iff, if◌then◌else◌, ◌&&◌, ◌||◌,
}
use ham_spectrum_analysis.Text.{Text}
use ham_spectrum_analysis.Ingest.Bands.{
  Band, holds, first_band, band_ranges, fallback_bands, infer_band, infer_band_from_frequency,
}

abbrev pub Holds : ℕ → Band → Type 0
Holds f band = (band.1 ≤ f) × (f ≤ band.2)

-- One band ends below the other.
abbrev apart : Band → Band → Bool
apart a b = ltb a.2 b.1 || ltb b.2 a.1

abbrev all_apart : List Band → Bool
all_apart [] = true
all_apart (band ∷ bands) = all (apart band) bands && all_apart bands

first_band-In :
    (f : ℕ) (bands : List Band) (name : Text)
    → first_band f bands ≡ some name
    → (band : Band) × In band bands × (band.0 ≡ name) × Holds f band
first_band-In f [] name e = ground (arith, e)
first_band-In f (band ∷ bands) name e = elim (Bool-cases (holds f band)) [
  | inl h ↦ (band, inl refl, ground (arith, e, h), ground (arith, h))
  | inr h ↦
      let (found, m, named, inside) = first_band-In f bands name (ground (arith, e, h)) in
      (found, inr m, named, inside)
]

not_first :
    (f : ℕ) (band other : Band) (bands : List Band)
    → all (apart band) bands ≡ true
    → In other bands
    → Holds f band
    → Holds f other
    → ⊥
not_first f band other [] h m a b = absurd m
not_first f band other (next ∷ bands) h (inl e) a b =
    let c : Holds f next = subst (Holds f) e b in ground (arith, h, a, c)
not_first f band other (next ∷ bands) h (inr m) a b =
    not_first f band other bands (ground (arith, h)) m a b

In-first_band :
    (f : ℕ) (bands : List Band) (band : Band)
    → all_apart bands ≡ true
    → In band bands
    → Holds f band
    → first_band f bands ≡ some band.0
In-first_band f [] band h m a = absurd m
In-first_band f (next ∷ bands) band h (inl e) a =
    let c : Holds f next = subst (Holds f) e a in ground (arith, c, ap (λ b. b.0) e)
In-first_band f (next ∷ bands) band h (inr m) a = elim (Bool-cases (holds f next)) [
  | inl q ↦ absurd (not_first f next band bands (ground (arith, h)) m (ground (arith, q)) a)
  | inr q ↦ rw q (In-first_band f bands band (ground (arith, h)) m a)
]

-- The bands of one list lie inside those of another, one by one.
abbrev Inside : List Band → List Band → Type 0
Inside [] [] = Unit
Inside (b ∷ bs) (r ∷ rs) = (b.0 ≡ r.0) × (r.1 ≤ b.1) × (b.2 ≤ r.2) × Inside bs rs
Inside _ _ = ⊥

In-Inside :
    (f : ℕ) (b : Band) (bs rs : List Band)
    → Inside bs rs
    → In b bs
    → Holds f b
    → (r : Band) × In r rs × (r.0 ≡ b.0) × Holds f r
In-Inside f b [] rs i m h = absurd m
In-Inside f b (c ∷ bs) [] i m h = absurd i
In-Inside f b (c ∷ bs) (r ∷ rs) i (inl e) h =
    let k : Holds f c = subst (Holds f) e h in
    (r, inl refl, sym i.0 ∙ sym (ap (λ b. b.0) e), (omega (arith, i, k), omega (arith, i, k)))
In-Inside f b (c ∷ bs) (r ∷ rs) i (inr m) h =
    let (found, n, named, inside) = In-Inside f b bs rs i.3 m h in (found, inr n, named, inside)

band_ranges-apart : all_apart band_ranges ≡ true
band_ranges-apart = refl

fallback_bands-Inside : Inside fallback_bands band_ranges
fallback_bands-Inside = ground arith

no_zero :
    (f : ℕ) (bands : List Band)
    → first_band 0 bands ≡ none
    → (if f == 0 then none else first_band f bands) ≡ first_band f bands
no_zero f bands z = elim (Bool-cases (f == 0)) [
  | inl h ↦ rw h (sym (subst (λ n. first_band n bands ≡ none) (sym ((==_iff f 0).0 h)) z))
  | inr h ↦ rw h refl
]

infer_band_lem : (f : ℕ) → infer_band f ≡ first_band f band_ranges
unfolding infer_band
infer_band_lem f = no_zero f band_ranges refl

fallback_lem : (f : ℕ) → infer_band_from_frequency [] f ≡ first_band f fallback_bands
unfolding infer_band_from_frequency
fallback_lem f = no_zero f fallback_bands refl

listed :
    (f : ℕ) (name : Text) (band : Band)
    → In band band_ranges
    → band.0 ≡ name
    → Holds f band
    → infer_band f ≡ some name
listed f name band m e h =
    infer_band_lem f ∙ In-first_band f band_ranges band band_ranges-apart m h ∙ ap some e

-- A frequency is given the name of a band exactly if it lies in the band of that name in the table
-- of the ingest, both ends included, so that no frequency lies in two bands. Where the database has
-- no bands, a band that the API's table names is the one of the ingest.
pub infer_band_iff :
    (frequency_hz : ℕ) (name : Text)
    → ((infer_band frequency_hz ≡ some name)
        ↔ ((band : Band) × In band band_ranges × (band.0 ≡ name) × Holds frequency_hz band))
      × ((infer_band_from_frequency [] frequency_hz ≡ some name)
          → infer_band frequency_hz ≡ some name)
infer_band_iff f name = (
  (
    λ e. first_band-In f band_ranges name (sym (infer_band_lem f) ∙ e),
    λ (band, m, e, h). listed f name band m e h,
  ),
  λ e. agrees (first_band-In f fallback_bands name (sym (fallback_lem f) ∙ e)),
)
  where
    agrees :
        (band : Band) × In band fallback_bands × (band.0 ≡ name) × Holds f band
        → infer_band f ≡ some name
    agrees (band, m, e, h) =
        let (r, n, named, inside) =
          In-Inside f band fallback_bands band_ranges fallback_bands-Inside m h in
        listed f name r n (named ∙ e) inside
