-- ===== src/Kiss/Buffer.antt =====
-- `KissBuffer` of backend/app/decoders/direwolf_kiss.py: the byte-stuffing state machine that cuts
-- a TCP stream into frames. Bytes are numbers, a `bytearray` is a list, and the list that `feed`
-- fills is returned beside the new state.
pub mod Chunks
pub mod RoundTrip
mod Tests
use ham_spectrum_analysis.Prelude.{
  ℕ, Bool, true, false, not, ◌&&◌, List, [], ◌∷◌, ◌++◌, is_empty, ◌==◌, if◌then◌else◌,
}

abbrev pub frame_end : ℕ
frame_end = 0xC0

abbrev pub frame_esc : ℕ
frame_esc = 0xDB

abbrev pub trans_fend : ℕ
trans_fend = 0xDC

abbrev pub trans_fesc : ℕ
trans_fesc = 0xDD

pub record KissBuffer : Type 0 where
  pub buffer : List ℕ
  pub in_frame : Bool
  pub escape : Bool

-- `__init__`
abbrev pub init : KissBuffer
init = record { buffer = []; in_frame = false; escape = false }

-- What a frame-end byte hands over: the buffer, if a frame is open and it is not empty.
pub flush : KissBuffer → List (List ℕ)
flush s = if s.in_frame && not (is_empty s.buffer) then s.buffer ∷ [] else []

-- The byte that an escaped byte stands for.
unescape : ℕ → ℕ
unescape byte =
    if byte == trans_fend then frame_end else if byte == trans_fesc then frame_esc else byte

-- The body of the `for` loop of `feed`; each `continue` is a branch.
step : KissBuffer → ℕ → KissBuffer × List (List ℕ)
unfolding flush unescape
step s byte =
    if byte == frame_end
    then (record { buffer = []; in_frame = true; escape = false }, flush s)
    else if not s.in_frame
    then (s, [])
    else if s.escape
    then (record s { buffer = s.buffer ++ unescape byte ∷ []; escape = false }, [])
    else if byte == frame_esc
    then (record s { escape = true }, [])
    else (record s { buffer = s.buffer ++ byte ∷ [] }, [])

pub feed : KissBuffer → List ℕ → KissBuffer × List (List ℕ)
feed s [] = (s, [])
feed s (byte ∷ data_) =
    let (s', out) = step s byte in let (s'', frames) = feed s' data_ in (s'', out ++ frames)
