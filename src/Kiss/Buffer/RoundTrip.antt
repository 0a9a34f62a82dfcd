-- ===== src/Kiss/Buffer/RoundTrip.antt =====
-- The KISS sender's byte stuffing, and that `feed` undoes it.
use ham_spectrum_analysis.Prelude.{
  ℕ, ◌≡◌, refl, true, false, List, [], ◌∷◌, ◌++◌, append_assoc, append-nil, All, arith, ◌==◌,
  if◌then◌else◌,
}
use ham_spectrum_analysis.Kiss.Buffer.{
  KissBuffer, flush, step, feed, frame_end, frame_esc, trans_fend, trans_fesc,
}
use ham_spectrum_analysis.Kiss.Buffer.Chunks.{feed-append, IsFrame}

-- The sender: how the KISS protocol writes a byte, and a frame between two frame ends.
abbrev stuff : ℕ → List ℕ
stuff byte =
    if byte == frame_end
    then frame_esc ∷ trans_fend ∷ []
    else if byte == frame_esc
    then frame_esc ∷ trans_fesc ∷ []
    else byte ∷ []

abbrev pub stuff_all : List ℕ → List ℕ
stuff_all [] = []
stuff_all (b ∷ bs) = stuff b ++ stuff_all bs

abbrev pub encode : List (List ℕ) → List ℕ
encode [] = []
encode (f ∷ fs) = frame_end ∷ stuff_all f ++ frame_end ∷ encode fs

abbrev pub open_with : List ℕ → KissBuffer
open_with bytes = record { buffer = bytes; in_frame = true; escape = false }

feed-stuff :
    (seen : List ℕ) (b : ℕ) → feed (open_with seen) (stuff b) ≡ (open_with (seen ++ b ∷ []), [])
unfolding feed step
feed-stuff seen b = ground arith

feed-stuff_all :
    (seen bytes : List ℕ)
    → feed (open_with seen) (stuff_all bytes) ≡ (open_with (seen ++ bytes), [])
feed-stuff_all seen [] = unfold feed in rw (append-nil seen)
feed-stuff_all seen (b ∷ bytes) =
    rw
      (
        feed-append (open_with seen) (stuff b) (stuff_all bytes),
        feed-stuff seen b,
        feed-stuff_all (seen ++ b ∷ []) bytes,
      )
      (rw (append_assoc seen (b ∷ []) bytes))

feed-frame_end :
    (s : KissBuffer) (rest : List ℕ)
    → feed s (frame_end ∷ rest)
      ≡ ((feed (open_with []) rest).0, flush s ++ (feed (open_with []) rest).1)
unfolding feed step
feed-frame_end s rest = refl

-- One frame between its two frame ends, from any state.
feed-frame :
    (s : KissBuffer) (f rest : List ℕ)
    → IsFrame f
    → feed s (frame_end ∷ stuff_all f ++ frame_end ∷ rest)
      ≡ ((feed (open_with []) rest).0, flush s ++ f ∷ (feed (open_with []) rest).1)
feed-frame s [] rest h = elim h [ ]
feed-frame s (b ∷ f) rest h =
    rw
      (
        feed-frame_end s (stuff_all (b ∷ f) ++ frame_end ∷ rest),
        feed-append (open_with []) (stuff_all (b ∷ f)) (frame_end ∷ rest),
        feed-stuff_all [] (b ∷ f),
        feed-frame_end (open_with (b ∷ f)) rest,
      )
      (unfold flush in refl)

feed-encode_open :
    (frames : List (List ℕ))
    → All IsFrame frames
    → feed (open_with []) (encode frames) ≡ (open_with [], frames)
feed-encode_open [] h = unfold feed in refl
feed-encode_open (f ∷ fs) h =
    rw (feed-frame (open_with []) f (encode fs) h.0, feed-encode_open fs h.1) (unfold flush in refl)

-- Whatever the state of the buffer (so after any noise, in the middle of a frame or behind an
-- escape byte), feeding one or more non-empty frames as the protocol writes them emits the frame
-- that was left open, if it holds a byte, and then exactly those frames in order; afterwards the
-- buffer is at the start of a frame.
pub feed-encode :
    (s : KissBuffer) (f : List ℕ) (fs : List (List ℕ))
    → All IsFrame (f ∷ fs)
    → feed s (encode (f ∷ fs)) ≡ (open_with [], flush s ++ f ∷ fs)
feed-encode s f fs h = rw (feed-frame s f (encode fs) h.0, feed-encode_open fs h.1)
