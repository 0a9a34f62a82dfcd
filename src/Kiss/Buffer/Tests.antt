-- ===== src/Kiss/Buffer/Tests.antt =====
-- Runs of the buffer, and the theorems at concrete streams.
use ham_spectrum_analysis.Prelude.{ℕ, ◌≡◌, refl, true, List, [], ◌∷◌, ◌++◌}
use ham_spectrum_analysis.Kiss.Buffer.{KissBuffer, init, flush, step, feed}
use ham_spectrum_analysis.Kiss.Buffer.RoundTrip.{encode, open_with, feed-encode}

-- Noise, then a frame that holds both bytes that must be escaped.
abbrev stream : List ℕ
stream = 0x41 ∷ 0xC0 ∷ 0x00 ∷ 0xDB ∷ 0xDC ∷ 0xDB ∷ 0xDD ∷ 0xC0 ∷ []

feed-stream : (feed init stream).1 ≡ (0x00 ∷ 0xC0 ∷ 0xDB ∷ []) ∷ []
unfolding feed step
feed-stream = refl

-- The state of a reader in the middle of a frame, behind an escape byte.
abbrev torn : KissBuffer
torn = record { buffer = 0x07 ∷ []; in_frame = true; escape = true }

feed-encode_example :
    feed torn (encode ((0xC0 ∷ 0x01 ∷ []) ∷ (0xDB ∷ []) ∷ []))
    ≡ (open_with [], flush torn ++ (0xC0 ∷ 0x01 ∷ []) ∷ (0xDB ∷ []) ∷ [])
feed-encode_example = feed-encode torn (0xC0 ∷ 0x01 ∷ []) ((0xDB ∷ []) ∷ []) (tt, (tt, tt))
