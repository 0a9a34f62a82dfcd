-- ===== src/Ingest/Events/Called.antt =====
-- What a report gives as its callsign, and which modes go without one.
use ham_spectrum_analysis.Prelude.{
  ◌≡◌, ◌⊎◌, inl, inr, refl, sym, ap, subst, ◌∙◌, Bool, true, false, ◌&&◌, ◌||◌, Option, none, some,
  [], ◌∷◌, arith, Bool-cases,
}
use ham_spectrum_analysis.Text.{Text, codes, same, same_iff}
use ham_spectrum_analysis.Ingest.Callsigns.{normalize_callsign, is_valid_callsign}
use ham_spectrum_analysis.Ingest.Callsigns.Clean.{
  IsNamed, normalize_callsign-fixed, normalize_callsign-none,
}
use ham_spectrum_analysis.Ingest.Values.{Value, Dict, get_value, truth, text_of, one_of}
use ham_spectrum_analysis.Ingest.Events.{
  CallsignEvent, text_or_none, if_valid, checked_callsign, may_be_nameless,
}

if_valid-some :
    (o : Option Text) (callsign : Text)
    → if_valid o ≡ some callsign
    → (o ≡ some callsign) × (is_valid_callsign callsign ≡ true)
unfolding if_valid
if_valid-some none callsign e = absurd (ground (arith, e))
if_valid-some (some found) callsign e = ground (arith, e)

if_valid-none :
    (o : Option Text)
    → if_valid o ≡ none
    → (o ≡ none) ⊎ ((found : Text) × (o ≡ some found) × (is_valid_callsign found ≡ false))
unfolding if_valid
if_valid-none none e = inl refl
if_valid-none (some found) e = inr (found, refl, ground (arith, e))

text_or_none-true : (given : Value) → truth given ≡ true → text_or_none given ≡ some (text_of given)
unfolding text_or_none
text_or_none-true given h = rw h refl

normalize_callsign-false :
    (given : Value) → truth given ≡ false → normalize_callsign (text_or_none given) ≡ none
unfolding text_or_none
normalize_callsign-false given h = rw h normalize_callsign-none

-- What a report gives as its callsign is in normal form `callsign`, and that looks like a callsign.
abbrev pub Gives : (given : Value) → (callsign : Text) → Type 0
Gives given callsign =
    (truth given ≡ true)
    × (normalize_callsign (some (text_of given)) ≡ some callsign)
    × (is_valid_callsign callsign ≡ true)

-- It gives nothing, or nothing that is left in normal form, or what does not look like a callsign.
abbrev pub GivesNone : (given : Value) → Type 0
GivesNone given =
    (truth given ≡ false)
    ⊎ (normalize_callsign (some (text_of given)) ≡ none)
    ⊎ ((found : Text) × (normalize_callsign (some (text_of given)) ≡ some found)
        × (is_valid_callsign found ≡ false))

-- The modes that need no callsign, and the text that they need in its place.
abbrev pub GoesWithout : (mode : Text) → (msg raw : Value) → Type 0
GoesWithout mode msg raw =
    (((mode ≡ codes "CW") ⊎ (mode ≡ codes "CW_CANDIDATE")) × (truth msg ≡ true))
    ⊎ (((mode ≡ codes "SSB") ⊎ (mode ≡ codes "SSB_TRAFFIC"))
        × ((truth msg ≡ true) ⊎ (truth raw ≡ true)))

-- The callsign of an event, or why it has none.
abbrev pub IsCalled : Dict → CallsignEvent → Type 0
IsCalled payload event =
    (Gives (get_value (codes "callsign") payload) event.callsign × IsNamed event.callsign)
    ⊎ ((event.callsign ≡ [])
        × GivesNone (get_value (codes "callsign") payload)
        × GoesWithout event.mode (get_value (codes "msg") payload)
            (get_value (codes "raw") payload))

pub checked_callsign-some :
    (given : Value) (callsign : Text)
    → checked_callsign given ≡ some callsign
    → Gives given callsign × IsNamed callsign
unfolding checked_callsign
checked_callsign-some given callsign e =
    let (found, valid) = if_valid-some (normalize_callsign (text_or_none given)) callsign e in
    elim (Bool-cases (truth given)) [
      | inl h ↦ (
        (h, ap normalize_callsign (sym (text_or_none-true given h)) ∙ found, valid),
        (valid, normalize_callsign-fixed (text_or_none given) callsign found),
      )
      | inr h ↦ absurd (ground (arith, sym (normalize_callsign-false given h) ∙ found))
    ]

pub checked_callsign-none : (given : Value) → checked_callsign given ≡ none → GivesNone given
unfolding checked_callsign
checked_callsign-none given e = elim (Bool-cases (truth given)) [
  | inr h ↦ inl h
  | inl h ↦ inr (
      subst
        (λ o.
          (normalize_callsign o ≡ none)
          ⊎ ((found : Text) × (normalize_callsign o ≡ some found)
              × (is_valid_callsign found ≡ false)))
        (text_or_none-true given h) (if_valid-none (normalize_callsign (text_or_none given)) e))
]

pub Gives-checked_callsign :
    (given : Value) (callsign : Text)
    → Gives given callsign
    → checked_callsign given ≡ some callsign
unfolding checked_callsign if_valid
Gives-checked_callsign given callsign (h, found, valid) =
    ap (λ o. if_valid (normalize_callsign o)) (text_or_none-true given h)
    ∙ ap if_valid found
    ∙ ground (arith, valid)

one_of_two : (s a b : Text) → one_of s (a ∷ b ∷ []) ≡ true → (s ≡ a) ⊎ (s ≡ b)
one_of_two s a b h = elim (Bool-cases (same s a)) [
  | inl q ↦ inl ((same_iff s a).0 q)
  | inr q ↦ inr ((same_iff s b).0 (ground (arith, h, q)))
]

pub and_both : (a b : Bool) → a && b ≡ true → (a ≡ true) × (b ≡ true)
and_both a b h = ground (arith, h)

or_cases : (a b : Bool) → a || b ≡ true → (a ≡ true) ⊎ (b ≡ true)
or_cases true b h = inl refl
or_cases false b h = inr h

pub may_be_nameless-true :
    (mode : Text) (msg raw : Value) → may_be_nameless mode msg raw ≡ true → GoesWithout mode msg raw
unfolding may_be_nameless
may_be_nameless-true mode msg raw e =
    let cw = one_of mode (codes "CW" ∷ codes "CW_CANDIDATE" ∷ []) in
    let ssb = one_of mode (codes "SSB" ∷ codes "SSB_TRAFFIC" ∷ []) in
    elim (or_cases (cw && truth msg) (ssb && (truth msg || truth raw)) e) [
      | inl h ↦
          let (m, t) = and_both cw (truth msg) h in
          inl (one_of_two mode (codes "CW") (codes "CW_CANDIDATE") m, t)
      | inr h ↦
          let (m, t) = and_both ssb (truth msg || truth raw) h in
          inr (
            one_of_two mode (codes "SSB") (codes "SSB_TRAFFIC") m,
            or_cases (truth msg) (truth raw) t,
          )
    ]
