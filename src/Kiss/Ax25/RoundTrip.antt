-- ===== src/Kiss/Ax25/RoundTrip.antt =====
-- A frame that a sender writes is parsed into what it was written from.
use ham_spectrum_analysis.Prelude.{
  ℕ, zero, suc, ◌+◌, ◌*◌, ◌≤◌, ◌≡◌, refl, ap, ◌∙◌, Bool, true, false, Option, some, List, [], ◌∷◌,
  ◌++◌, map, length, length-append, take, drop, take-append, drop-append, All, is_empty, ltb,
  if◌then◌else◌, append_assoc, arith,
}
use ham_spectrum_analysis.Text.{Text}
use ham_spectrum_analysis.Kiss.Ax25.{with_ssid, read_addresses, present, parse_ax25}
use ham_spectrum_analysis.Kiss.Ax25.Address.{
  Station, IsStation, shown, encode_address, encode_addresses, length-encode_address,
  decode_address-encode,
}

module _ (s : Station) (valid : IsStation s) (last : Bool) where
  window :
      (before more : List ℕ)
      → take 7 (drop (length before) (before ++ (encode_address s last ++ more)))
        ≡ encode_address s last
  window before more =
      rw (drop-append before (encode_address s last ++ more))
        (rw (length-encode_address s valid last) at (take-append (encode_address s last) more))

  -- One round of the loop, at an address with bytes before and behind it.
  read_addresses-encode :
      (rounds : ℕ) (before more : List ℕ) (frame : List ℕ)
      → frame ≡ before ++ (encode_address s last ++ more)
      → read_addresses (suc rounds) frame (length before) ≡ (
          if last then (some (shown s) ∷ [], length before + 7) else (
            some (shown s) ∷ (read_addresses rounds frame (length before + 7)).0,
            (read_addresses rounds frame (length before + 7)).1,
          ))
  unfolding read_addresses
  read_addresses-encode rounds before more frame e =
      rw (sixth, e, window before more, decode_address-encode s valid last)
    where
      sixth : ltb (length frame) (length before + 7) ≡ false
      sixth = rw e (
          ground (
            arith,
            length-append before (encode_address s last ++ more),
            length-append (encode_address s last) more,
            length-encode_address s valid last,
          ))

abbrev calls : List Station → List (Option Text)
calls = map (λ s. some (shown s))

regroup : (a b c d : List ℕ) → a ++ ((b ++ c) ++ d) ≡ (a ++ b) ++ (c ++ d)
regroup a b c d = simp append_assoc

read_addresses-encode_addresses :
    (rounds : ℕ) (before more frame : List ℕ) (s : Station) (ts : List Station)
    → frame ≡ before ++ (encode_addresses s ts ++ more)
    → length ts ≤ rounds
    → IsStation s
    → All IsStation ts
    → read_addresses (suc rounds) frame (length before)
      ≡ (calls (s ∷ ts), length before + 7 * length (s ∷ ts))
read_addresses-encode_addresses rounds before more frame s [] e h v vs =
    rw (read_addresses-encode s v true rounds before more frame e)
      (ap (λ n. (calls (s ∷ []), n)) (omega arith))
read_addresses-encode_addresses zero before more frame s (t ∷ ts) e h v vs = absurd (omega arith)
read_addresses-encode_addresses (suc rounds) before more frame s (t ∷ ts) e h v vs =
    let sent = encode_address s false in
    let at_offset : length (before ++ sent) ≡ length before + 7 =
      omega (arith, length-append before sent, length-encode_address s v false) in
    let ih =
      read_addresses-encode_addresses rounds (before ++ sent) more frame t ts
        (e ∙ regroup before sent (encode_addresses t ts) more) (omega arith) vs.0 vs.1 in
    rw
      (
        read_addresses-encode s v false (suc rounds) before (encode_addresses t ts ++ more) frame
            (e ∙ ap (λ l. before ++ l) (append_assoc sent (encode_addresses t ts) more)),
        rw at_offset at ih,
      )
      (ap (λ n. (calls (s ∷ t ∷ ts), n)) (omega arith))

with_ssid-not_empty : (call : Text) (n : ℕ) → 1 ≤ length call → is_empty (with_ssid call n) ≡ false
unfolding with_ssid
with_ssid-not_empty [] n h = absurd (omega arith)
with_ssid-not_empty (c ∷ call) n h = ground arith

shown-not_empty : (s : Station) → IsStation s → is_empty (shown s) ≡ false
shown-not_empty s v = with_ssid-not_empty s.call s.ssid v.some_call

present-calls : (ss : List Station) → All IsStation ss → present (calls ss) ≡ map shown ss
unfolding present
present-calls [] h = refl
present-calls (s ∷ ss) h = rw (shown-not_empty s h.0, present-calls ss h.1)

length-encode_addresses :
    (s : Station) (ts : List Station)
    → IsStation s
    → All IsStation ts
    → length (encode_addresses s ts) ≡ 7 * length (s ∷ ts)
length-encode_addresses s [] v vs = omega (arith, length-encode_address s v true)
length-encode_addresses s (t ∷ ts) v vs = omega (
  arith,
  length-encode_address s v false,
  length-append (encode_address s false) (encode_addresses t ts),
  length-encode_addresses t ts vs.0 vs.1,
)

drop_two :
    (sent : List ℕ) (a b : ℕ) (info : List ℕ) → drop (length sent + 2) (sent ++ a ∷ b ∷ info) ≡ info
drop_two sent a b info =
    let e : length (sent ++ a ∷ b ∷ []) ≡ length sent + 2 =
      omega (arith, length-append sent (a ∷ b ∷ [])) in
    rw (← e, ← append_assoc sent (a ∷ b ∷ []) info) (drop-append (sent ++ a ∷ b ∷ []) info)

-- A frame that a sender builds from a destination, a source and at most eight digipeaters, with a
-- control byte, a protocol byte and a payload, is parsed into exactly these: the three kinds of
-- address by their shown names, in order, and the payload, whatever the two bytes are.
pub parse_ax25-encode :
    (dest src : Station) (path : List Station) (control pid : ℕ) (info : List ℕ)
    → IsStation dest
    → IsStation src
    → All IsStation path
    → length path ≤ 8
    → parse_ax25 (encode_addresses dest (src ∷ path) ++ control ∷ pid ∷ info)
      ≡ some (record {
        dest = some (shown dest);
        src = some (shown src);
        path = map shown path;
        info = some info;
      })
unfolding parse_ax25
parse_ax25-encode dest src path control pid info d s ps h =
    let sent = encode_addresses dest (src ∷ path) in
    let measured : length sent ≡ 7 * length (dest ∷ src ∷ path) =
      length-encode_addresses dest (src ∷ path) d (s, ps) in
    let whole : length (sent ++ control ∷ pid ∷ info)
        ≡ length sent + length (control ∷ pid ∷ info) =
      length-append sent (control ∷ pid ∷ info) in
    let fits : ltb (length (sent ++ control ∷ pid ∷ info)) (length sent + 2) ≡ false =
      ground arith in
    let long : ltb (length (sent ++ control ∷ pid ∷ info)) 14 ≡ false = ground arith in
    let loop : read_addresses 10 (sent ++ control ∷ pid ∷ info) 0
        ≡ (calls (dest ∷ src ∷ path), length sent) =
      read_addresses-encode_addresses 9 [] (control ∷ pid ∷ info) (sent ++ control ∷ pid ∷ info)
        dest (src ∷ path) refl (omega arith) d (s, ps)
      ∙ ap (λ n. (calls (dest ∷ src ∷ path), n)) (omega arith) in
    rw (long, loop, fits, present-calls path ps, drop_two sent control pid info)
