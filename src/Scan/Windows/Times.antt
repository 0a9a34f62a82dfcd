-- ===== src/Scan/Windows/Times.antt =====
-- The text of a time of the day and its minutes.
use ham_spectrum_analysis.Prelude.{
  ℕ, ◌+◌, ◌-◌, ◌*◌, ◌≡◌, ◌<◌, refl, ap, sym, ◌∙◌, true, false, some, [], ◌∷◌, arith,
}
use ham_spectrum_analysis.Text.{Text, is_space, strip-append_spaces}
use ham_spectrum_analysis.Scan.Windows.{
  is_digit, is_hhmm, split_colon, to_int, from_parts, hhmm_to_minutes,
}

is_digit-is_space : (c : ℕ) → is_digit c ≡ true → is_space c ≡ false
unfolding is_space
is_digit-is_space c h = ground arith

to_int_two :
    (a b : ℕ)
    → is_digit a ≡ true
    → is_digit b ≡ true
    → to_int (a ∷ b ∷ []) ≡ some ((a - b'0') * 10 + (b - b'0'))
unfolding to_int
to_int_two a b ha hb =
    let kept =
      strip-append_spaces a (b ∷ []) 0 (is_digit-is_space a ha, (is_digit-is_space b hb, tt)) in
    rw kept (ground arith)

split_hhmm :
    (a b d e : ℕ)
    → is_digit a ≡ true
    → is_digit b ≡ true
    → is_digit d ≡ true
    → is_digit e ≡ true
    → split_colon (a ∷ b ∷ b':' ∷ d ∷ e ∷ []) ≡ (a ∷ b ∷ []) ∷ (d ∷ e ∷ []) ∷ []
unfolding split_colon
split_hhmm a b d e ha hb hd he = ground arith

-- The digits of a valid time.
record IsTime (s : Text) : Type 0 where
  a : ℕ
  b : ℕ
  d : ℕ
  e : ℕ
  text : s ≡ a ∷ b ∷ b':' ∷ d ∷ e ∷ []
  digits : (is_digit a ≡ true) × (is_digit b ≡ true) × (is_digit d ≡ true) × (is_digit e ≡ true)
  hour : (a - b'0') * 10 + (b - b'0') < 24
  minute : (d - b'0') * 10 + (e - b'0') < 60

is_hhmm-IsTime : (s : Text) → is_hhmm s ≡ true → IsTime s
unfolding is_hhmm
is_hhmm-IsTime (a ∷ b ∷ c ∷ d ∷ e ∷ []) h = record {
  a = a;
  b = b;
  d = d;
  e = e;
  text = ap (λ x. a ∷ b ∷ x ∷ d ∷ e ∷ []) (ground (arith, h));
  digits = ground (arith, h);
  hour = ground (arith, h);
  minute = ground (arith, h);
}
is_hhmm-IsTime [] h = ground arith
is_hhmm-IsTime (a ∷ []) h = ground arith
is_hhmm-IsTime (a ∷ b ∷ []) h = ground arith
is_hhmm-IsTime (a ∷ b ∷ c ∷ []) h = ground arith
is_hhmm-IsTime (a ∷ b ∷ c ∷ d ∷ []) h = ground arith
is_hhmm-IsTime (a ∷ b ∷ c ∷ d ∷ e ∷ f ∷ s) h = ground arith

IsTime-minutes :
    (s : Text) (t : IsTime s)
    → hhmm_to_minutes s
      ≡ some (((t.a - b'0') * 10 + (t.b - b'0')) * 60 + ((t.d - b'0') * 10 + (t.e - b'0')))
unfolding hhmm_to_minutes
IsTime-minutes s t =
    let (ha, hb, hd, he) = t.digits in
    ap (λ x. from_parts (split_colon x)) t.text
    ∙ ap from_parts (split_hhmm t.a t.b t.d t.e ha hb hd he)
    ∙ rw (to_int_two t.a t.b ha hb, to_int_two t.d t.e hd he) refl

-- A text that the pattern of a time accepts is read, as a minute of the day.
pub is_hhmm-minutes :
    (s : Text) → is_hhmm s ≡ true → (m : ℕ) × (hhmm_to_minutes s ≡ some m) × (m < 1440)
is_hhmm-minutes s h =
    let t = is_hhmm-IsTime s h in
    (
      ((t.a - b'0') * 10 + (t.b - b'0')) * 60 + ((t.d - b'0') * 10 + (t.e - b'0')),
      IsTime-minutes s t,
      omega (arith, t.hour, t.minute),
    )

-- Two such texts with the same minute are the same text.
pub is_hhmm_injective :
    (s t : Text) (m : ℕ)
    → is_hhmm s ≡ true
    → is_hhmm t ≡ true
    → hhmm_to_minutes s ≡ some m
    → hhmm_to_minutes t ≡ some m
    → s ≡ t
is_hhmm_injective s t m hs ht es et =
    let x = is_hhmm-IsTime s hs in
    let y = is_hhmm-IsTime t ht in
    let same_minute = sym (IsTime-minutes s x) ∙ es ∙ sym et ∙ IsTime-minutes t y in
    let (xa, xb, xd, xe) = x.digits in
    let (ya, yb, yd, ye) = y.digits in
    let same : x.a ∷ x.b ∷ b':' ∷ x.d ∷ x.e ∷ [] ≡ y.a ∷ y.b ∷ b':' ∷ y.d ∷ y.e ∷ [] =
      ground (arith, same_minute, x.minute, y.minute, xa, xb, xd, xe, ya, yb, yd, ye) in
    x.text ∙ same ∙ sym y.text
