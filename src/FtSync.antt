-- ===== src/FtSync.antt =====
-- `Ft8SlotTracker` of backend/app/decoders/ft_sync.py: the tracks that are heard in each time slot,
-- and which of them are locked. A frequency is in whole Hz and the tolerance too; a confidence is in
-- thousandths from 0 up, a level in hundredths of a decibel from -999 dB up, below which no maximum
-- changes. The quotient in a mean frequency is exact, where the source has a float of 53 bits.
-- `last_seen_at` of a track, which nothing reads, is left out.
pub mod Tracks
pub mod Slots
