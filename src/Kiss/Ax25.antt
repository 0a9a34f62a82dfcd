-- ===== src/Kiss/Ax25.antt =====
-- The AX.25 header of backend/app/decoders/direwolf_kiss.py: `_decode_callsign`, `_decode_address`
-- and `_parse_ax25`. A frame is its bytes; a slice is `take` and `drop`.
pub mod Address
pub mod RoundTrip
mod Tests
use ham_spectrum_analysis.Prelude.{
  ℕ, zero, suc, ◌+◌, ◌/◌, ◌%◌, Bool, true, false, Option, none, some, List, [], ◌∷◌, ◌++◌, map,
  length, take, drop, get_or, is_empty, ltb, ◌==◌, if◌then◌else◌,
}
use ham_spectrum_analysis.Text.{Text, strip, decimal}

-- `f"{call}-{ssid}"`, where `ssid` is not 0.
pub with_ssid : Text → ℕ → Text
with_ssid call ssid = if ssid == 0 then call else call ++ b'-' ∷ decimal ssid

-- `(b >> 1) & 0x7F` of the first six bytes, as characters.
call_chars : List ℕ → Text
call_chars addr = map (λ b. b / 2 % 128) (take 6 addr)

decode_callsign : List ℕ → Option Text
decode_callsign addr =
    if ltb (length addr) 7
    then none
    else let call = strip (call_chars addr) in
      if is_empty call then none else some (with_ssid call (get_or addr 6 0 / 2 % 16))

pub decode_address : List ℕ → Option Text × Bool
decode_address addr =
    if ltb (length addr) 7 then (none, false) else (decode_callsign addr, get_or addr 6 0 % 2 == 1)

-- The loop over the address fields: the calls from `offset` on, and the offset behind the last one
-- that was read. The number is the rounds left of `range(10)`.
read_addresses : ℕ → List ℕ → ℕ → List (Option Text) × ℕ
read_addresses zero frame offset = ([], offset)
read_addresses (suc rounds) frame offset =
    if ltb (length frame) (offset + 7)
    then ([], offset)
    else let (call, last) = decode_address (take 7 (drop offset frame)) in
      let (calls, end) = read_addresses rounds frame (offset + 7) in
      if last then (call ∷ [], offset + 7) else (call ∷ calls, end)

-- `[call for call in … if call]`
present : List (Option Text) → List Text
present [] = []
present (none ∷ calls) = present calls
present (some call ∷ calls) =
    let rest = present calls in if is_empty call then rest else call ∷ rest

pub record Header : Type 0 where
  pub dest : Option Text
  pub src : Option Text
  pub path : List Text
  pub info : Option (List ℕ)

-- What follows the loop: fewer than two addresses are no header.
header : List ℕ → List (Option Text) × ℕ → Option Header
unfolding present
header frame (dest ∷ src ∷ calls, offset) = some (record {
  dest = dest;
  src = src;
  path = present calls;
  info = if ltb (length frame) (offset + 2) then none else some (drop (offset + 2) frame);
})
header frame _ = none

pub parse_ax25 : List ℕ → Option Header
unfolding header
parse_ax25 frame = if ltb (length frame) 14 then none else header frame (read_addresses 10 frame 0)
