-- ===== src/Kiss/Ax25/Address.antt =====
-- The address field of the AX.25 standard, as a sender writes it, and that the parser reads it.
use ham_spectrum_analysis.Prelude.{
  ℕ, ◌+◌, ◌-◌, ◌*◌, ◌/◌, ◌%◌, ◌≤◌, ◌<◌, ◌≡◌, refl, ap, Bool, true, false, some, List, [], ◌∷◌, ◌++◌,
  map, length, length-append, take, take-append, replicate, length-replicate, All, All-append,
  All-replicate, get_or-append, get_or, is_empty, ◌==◌, if◌then◌else◌, arith,
}
use ham_spectrum_analysis.Text.{Text, NoSpace, strip, strip-append_spaces}
use ham_spectrum_analysis.Kiss.Ax25.{with_ssid, call_chars, decode_callsign, decode_address}

-- A station: its call, its number, and the three bits over the number, which the parser ignores.
pub record Station : Type 0 where
  pub call : Text
  pub ssid : ℕ
  pub flags : ℕ

-- One to six seven-bit characters with no white space, and fields that fit their bits.
pub record IsStation (s : Station) : Type 0 where
  pub some_call : 1 ≤ length s.call
  pub short_call : length s.call ≤ 6
  pub seven_bits : All (λ c. c < 128) s.call
  pub no_space : NoSpace s.call
  pub small_ssid : s.ssid < 16

abbrev pub shown : Station → Text
shown s = with_ssid s.call s.ssid

-- The call is padded with blanks, each character is shifted left, and the lowest bit of the seventh
-- byte marks the last address.
abbrev pub encode_address : Station → Bool → List ℕ
encode_address s last =
    map (λ c. 2 * c) (s.call ++ replicate (6 - length s.call) 32)
    ++ (32 * s.flags + 2 * s.ssid + (if last then 1 else 0)) ∷ []

abbrev pub encode_addresses : Station → List Station → List ℕ
encode_addresses s [] = encode_address s true
encode_addresses s (t ∷ ts) = encode_address s false ++ encode_addresses t ts

length-double : (s : Text) → length (map (λ c. 2 * c) s) ≡ length s
length-double [] = refl
length-double (c ∷ s) = omega (arith, length-double s)

halve-double : (s : Text) → All (λ c. c < 128) s → map (λ b. b / 2 % 128) (map (λ c. 2 * c) s) ≡ s
halve-double [] h = refl
halve-double (c ∷ s) h = ground (arith, halve-double s h.1)

-- The call as it is sent, and the byte behind it.
abbrev spaces : Text → Text
spaces call = replicate (6 - length call) 32

abbrev padded : Text → List ℕ
padded call = map (λ c. 2 * c) (call ++ spaces call)

abbrev last_byte : Station → Bool → ℕ
last_byte s last = 32 * s.flags + 2 * s.ssid + (if last then 1 else 0)

module _ (s : Station) (valid : IsStation s) (last : Bool) where
  length-padded : length (padded s.call) ≡ 6
  length-padded = omega (
    arith,
    valid.short_call,
    length-double (s.call ++ spaces s.call),
    length-append s.call (spaces s.call),
    length-replicate {A = ℕ} (6 - length s.call) 32,
  )

  pub length-encode_address : length (encode_address s last) ≡ 7
  length-encode_address =
      omega (arith, length-padded, length-append (padded s.call) (last_byte s last ∷ []))

  take-encode_address : take 6 (encode_address s last) ≡ padded s.call
  take-encode_address = rw length-padded at (take-append (padded s.call) (last_byte s last ∷ []))

  get_or-encode_address : get_or (encode_address s last) 6 0 ≡ last_byte s last
  get_or-encode_address =
      rw length-padded at (get_or-append (padded s.call) (last_byte s last) [] 0)

  call_chars-encode_address : call_chars (encode_address s last) ≡ s.call ++ spaces s.call
  unfolding call_chars
  call_chars-encode_address = rw take-encode_address (
      halve-double (s.call ++ spaces s.call) (
        All-append (λ c. c < 128) s.call _ valid.seven_bits
          (All-replicate (λ c. c < 128) (6 - length s.call) 32 (omega arith))))

strip-padded :
    (call : Text) (n : ℕ) → 1 ≤ length call → NoSpace call → strip (call ++ replicate n 32) ≡ call
strip-padded [] n h k = absurd (omega arith)
strip-padded (c ∷ call) n h k = strip-append_spaces c call n k

not_empty : (call : Text) → 1 ≤ length call → is_empty call ≡ false
not_empty [] h = absurd (omega arith)
not_empty (c ∷ call) h = refl

module _ (s : Station) (valid : IsStation s) (last : Bool) where
  decode_callsign-encode : decode_callsign (encode_address s last) ≡ some (shown s)
  unfolding decode_callsign
  decode_callsign-encode =
      rw
        (
          length-encode_address s valid last,
          call_chars-encode_address s valid last,
          strip-padded s.call (6 - length s.call) valid.some_call valid.no_space,
          not_empty s.call valid.some_call,
          get_or-encode_address s valid last,
        )
        (ap (λ n. some (with_ssid s.call n)) (ssid_bits last))
    where
      ssid_bits : (l : Bool) → last_byte s l / 2 % 16 ≡ s.ssid
      ssid_bits true = omega (arith, valid.small_ssid)
      ssid_bits false = omega (arith, valid.small_ssid)

last_bit : (s : Station) (last : Bool) → (last_byte s last % 2 == 1) ≡ last
last_bit s true = ground arith
last_bit s false = ground arith

module _ (s : Station) (valid : IsStation s) (last : Bool) where
  -- The address field that a sender writes for a valid station is read as that station, and the
  -- mark of the last address is read as it was set.
  pub decode_address-encode : decode_address (encode_address s last) ≡ (some (shown s), last)
  unfolding decode_address
  decode_address-encode = rw (
    length-encode_address s valid last,
    decode_callsign-encode s valid last,
    get_or-encode_address s valid last,
    last_bit s last,
  )
