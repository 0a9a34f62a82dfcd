-- ===== src/Kiss/Buffer/Chunks.antt =====
-- How the reads of `kiss_loop` cut the stream does not matter, and what `feed` keeps and emits.
use ham_spectrum_analysis.Prelude.{
  ℕ, ◌+◌, ◌≤◌, ◌≡◌, refl, sym, ap, List, [], ◌∷◌, ◌++◌, append_assoc, length, length-append, All,
  All-append, arith,
}
use ham_spectrum_analysis.Kiss.Buffer.{KissBuffer, unescape, step, feed}

-- Feeding two reads one after the other leaves the same state and emits the same frames as feeding
-- their concatenation, from every state of the buffer.
pub feed-append :
    (s : KissBuffer) (first second : List ℕ)
    → feed s (first ++ second)
      ≡ ((feed (feed s first).0 second).0, (feed s first).1 ++ (feed (feed s first).0 second).1)
unfolding feed
feed-append s [] second = refl
feed-append s (byte ∷ first) second = rw (feed-append (step s byte).0 first second) (
    ap (λ fs. ((feed (feed s (byte ∷ first)).0 second).0, fs))
      (sym (append_assoc (step s byte).1 _ _)))

-- The sum of the lengths of the frames.
abbrev pub total : List (List ℕ) → ℕ
total [] = 0
total (f ∷ fs) = length f + total fs

total-append : (xs ys : List (List ℕ)) → total (xs ++ ys) ≡ total xs + total ys
total-append [] ys = omega arith
total-append (x ∷ xs) ys = omega (arith, total-append xs ys)

step-total :
    (s : KissBuffer) (byte : ℕ)
    → total (step s byte).1 + length (step s byte).0.buffer ≤ length s.buffer + 1
unfolding step
step-total s byte =
    ground (arith, length-append s.buffer (byte ∷ []), length-append s.buffer (unescape byte ∷ []))

-- No byte is duplicated: the bytes of all emitted frames together with those still buffered are at
-- most the bytes that were buffered before and the bytes that were read.
feed-total :
    (s : KissBuffer) (bytes : List ℕ)
    → total (feed s bytes).1 + length (feed s bytes).0.buffer ≤ length s.buffer + length bytes
unfolding feed
feed-total s [] = omega arith
feed-total s (byte ∷ bytes) = omega (
  arith,
  step-total s byte,
  feed-total (step s byte).0 bytes,
  total-append (step s byte).1 (feed (step s byte).0 bytes).1,
)

-- A frame that `feed` may emit: not empty.
abbrev pub IsFrame : List ℕ → Type 0
IsFrame [] = ⊥
IsFrame (b ∷ f) = Unit

step-IsFrame : (s : KissBuffer) (byte : ℕ) → All IsFrame (step s byte).1
unfolding step
step-IsFrame s byte = ground arith

-- Every emitted frame has at least one byte, from every state and for every input.
feed-IsFrame : (s : KissBuffer) (bytes : List ℕ) → All IsFrame (feed s bytes).1
unfolding feed
feed-IsFrame s [] = tt
feed-IsFrame s (byte ∷ bytes) =
    All-append IsFrame (step s byte).1 _ (step-IsFrame s byte) (feed-IsFrame (step s byte).0 bytes)
