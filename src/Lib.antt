-- ===== src/Lib.antt =====
-- 4ham spectrum analysis: the backend of an amateur-radio monitor. This library models parts of it that
-- decode, schedule and forward what the receiver hears; paths are from the root of the repository.
--
-- Kiss models backend/app/decoders/direwolf_kiss.py. Kiss.Buffer is the class KissBuffer: the state
-- record has its three attributes, and `feed` folds `step`, the body of its loop, over the bytes that
-- were read. Kiss.Ax25 is `_decode_callsign`, `_decode_address` and `_parse_ax25`; the loop of at most
-- ten rounds recurs on the rounds left, which is the source's own bound. Not modelled: the position
-- parsers, which compute with floating point, `parse_kiss_frame`, which asks the package aprslib first,
-- and the socket loop.
--
-- Mirror models backend/app/external_mirrors. Mirror.Table is what SQLite keeps of the event tables of
-- backend/app/storage/db.py: rows in key order. Mirror.Payload is payload.py; `build_payload` reads both
-- tables through `fetch_events_and_max` and computes the new cursor. The clock and the outcome of the
-- snapshot bundle are arguments. Mirror.Repository is repository.py: Names is the regular expression of
-- mirror names, Model the two tables and the statements that the methods share, and Create, Update,
-- Methods and Bookkeeping hold the methods, each a function from the repository to its outcome and the
-- new repository. bcrypt's hashes, random tokens and the clock are arguments. A payload enters the
-- repository through `update_after_push`, which the pusher calls with the new cursor.
-- Mirror.Repository.Invariant is what holds of the table after any history of calls.
--
-- Mirror.Http is http_client.py: `post` runs its retry loop on the rounds left, which is the source's
-- own bound of `max_retries + 1`, over an argument that says what the server answers to each attempt.
-- Mirror.Pusher is pusher.py: one push reads the mirror's cursor, builds the payload, posts it and books
-- the outcome in the repository; a tick does so for the mirrors that are due. Mirror.Pusher.Tokens is
-- its TokenCache, over an argument for the cipher. Mirror.Pusher.Replication puts the event tables, the
-- pusher and what the mirrors have received into one state, with a step relation for inserts, deletes
-- and pushes in any order. The scopes of a mirror do not change in it, and a push is one step.
--
-- Scan models backend/app/scan. Scan.Rotation is rotation.py: `from_dict`, and the loop of ScanRotation
-- by rounds, of which a pass without `loop` takes as many as there are slots. Scan.Windows and
-- Scan.Schedules are preset_scheduler.py with the schedule handlers of backend/app/api/scan.py and their
-- table; one tick of the scheduler takes the minute of the day, the schedules and the callback's outcome.
--
-- Beacons.Catalog is backend/app/beacons/catalog.py: who sends on which band in which slot.
--
-- Beacons.Scheduler is scheduler.py beside it: `run_slot` is one round of the slot loop, over an argument
-- for what the detector found, and `run_slots` the loop over given slots.
-- Beacons.Scheduler.Tuning reads from the parking calls where the receiver stands.
--
-- FtSync is backend/app/decoders/ft_sync.py: FtSync.Tracks the loop of `update` on the tracks of one slot,
-- FtSync.Slots the slots, their clean-up and the whole of `update`.
--
-- Ingest is backend/app/decoders/ingest.py: the table of bands beside the one of
-- backend/app/dependencies/helpers.py, the check of a callsign, whose regular expression is data for a
-- matcher, and `build_callsign_event`. Its events have the bands and callsigns that the rest of the
-- program, and the mirrors, show.
--
-- Auth is backend/app/core/auth.py, backend/app/dependencies/auth.py and backend/app/api/auth.py with the
-- settings and sessions of backend/app/storage/db.py: a handler takes the server's state to its answer and
-- the new state, over arguments for bcrypt, base64, sha256, the random token and the clock.
--
-- Retention is backend/app/core/retention.py over the selections of backend/app/storage/db.py: Tables has
-- the rows by key with their timestamps, which SQL compares as texts, and Cycle is `run_retention`. The
-- loop of a deletion recurs on the number of keys, of which each batch takes one at least.
--
-- Places is the part of backend/app/dependencies/helpers.py that says where a station is: Dxcc finds the
-- entity of a callsign by its longest prefix in an index that is a function, and Maidenhead the centre of
-- a locator, in whole 24ths and 48ths of a degree.
--
-- Occupancy is the part of backend/app/dependencies/helpers.py that judges a signal by its frequency, in
-- whole Hz: Hints has the windows of the digital modes, over the bands of Ingest, and Events the check of
-- an occupancy event against the band of the scan, whose edges are compared in half Hz.
--
-- Morse models the tables of backend/app/decoders/cw/morse_table.py and `morse_sequence_to_text` of
-- decoder.py beside it, whose loop is `hear` folded over the symbols.
--
-- Not modelled: signal processing and the SDR (floating point and devices), the decoders that are outside
-- programs, the web layer, the satellite module, the frontend and the PHP site. Sockets, timers and
-- asyncio tasks appear as the sequences of calls that they make.
--
-- Text is a list of code points, of which case is changed for ASCII letters alone. The times of schedules
-- have ASCII digits. Numbers are natural: a negative dwell, batch
-- size or index, which the source clamps or refuses, is not written.
-- Prelude holds what the modules share.
pub mod Prelude
pub mod Text
pub mod Kiss
pub mod Mirror
pub mod Scan
pub mod Beacons
pub mod Morse
pub mod Auth
pub mod FtSync
pub mod Ingest
pub mod Retention
pub mod Places
pub mod Occupancy
