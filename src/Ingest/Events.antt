-- ===== src/Ingest/Events.antt =====
-- `build_callsign_event` of backend/app/decoders/ingest.py: the event of what a decoder reports, or
-- none. A report is a dictionary; `int`, `json.loads`, `json.dumps` and the clock are arguments.
pub mod Called
pub mod Accepted
use ham_spectrum_analysis.Prelude.{
  ℕ, Bool, true, false, ◌&&◌, ◌||◌, not, Option, none, some, List, [], ◌∷◌, map, any, is_empty,
  if◌then◌else◌,
}
use ham_spectrum_analysis.Text.{Text, codes, same, upper}
use ham_spectrum_analysis.Ingest.Values.{
  Value, null, str, other, Dict, Hz, at, below_zero, Python, get_value, truth, text_of, or_else,
  one_of, extras_of, payload_blob,
}
use ham_spectrum_analysis.Ingest.Bands.{infer_band}
use ham_spectrum_analysis.Ingest.Callsigns.{normalize_callsign, is_valid_callsign}

-- `scan_state`
pub record ScanState : Type 0 where
  pub device : Value
  pub scan_id : Value

pub record CallsignEvent : Type 0 where
  pub timestamp : Value
  pub band : Value
  pub frequency_hz : Hz
  pub mode : Text
  pub callsign : Text
  pub payload : Value
  pub source : Value
  pub device : Value
  pub scan_id : Value
  pub passed : Dict

abbrev pub allowed_modes : List Text
allowed_modes =
    codes "FT8"
    ∷ codes "FT4"
    ∷ codes "WSPR"
    ∷ codes "APRS"
    ∷ codes "CW"
    ∷ codes "CW_CANDIDATE"
    ∷ codes "SSB"
    ∷ codes "SSB_TRAFFIC"
    ∷ codes "Unknown"
    ∷ []

pub normalize_mode : Value → Text
normalize_mode value =
    let mode = upper (text_of value) in
    if truth value && one_of mode allowed_modes then mode else codes "Unknown"

infer_source : (mode : Text) → Text
infer_source mode =
    if one_of mode (codes "FT8" ∷ codes "FT4" ∷ codes "WSPR" ∷ [])
    then codes "external_ft"
    else if same mode (codes "APRS")
    then codes "direwolf"
    else if one_of mode (codes "CW" ∷ codes "CW_CANDIDATE" ∷ [])
    then codes "cw"
    else if same mode (codes "SSB")
    then codes "asr"
    else if same mode (codes "SSB_TRAFFIC")
    then codes "internal_ssb_occupancy"
    else codes "dsp"

text_or_none : Value → Option Text
text_or_none value = if truth value then some (text_of value) else none

if_valid : Option Text → Option Text
if_valid none = none
if_valid (some callsign) = if is_valid_callsign callsign then some callsign else none

-- The callsign of a report, where it looks like one.
pub checked_callsign : Value → Option Text
unfolding text_or_none if_valid
checked_callsign value = if_valid (normalize_callsign (text_or_none value))

-- May an event go without a callsign? Decoded text will do for CW, and raw text too for SSB.
pub may_be_nameless : (mode : Text) → (msg raw : Value) → Bool
may_be_nameless mode msg raw =
    (one_of mode (codes "CW" ∷ codes "CW_CANDIDATE" ∷ []) && truth msg)
    || (one_of mode (codes "SSB" ∷ codes "SSB_TRAFFIC" ∷ []) && (truth msg || truth raw))

pub callsign_of : Option Text → (nameless : Bool) → Option Text
callsign_of (some callsign) nameless = some callsign
callsign_of none nameless = if nameless then some [] else none

frequency_of : Python → Value → Hz
frequency_of py null = at 0
frequency_of py value = elim (py.int value) [ none ↦ at 0 | some hz ↦ hz ]

pub band_name : Hz → Value
band_name (below_zero n) = null
band_name (at n) = elim (infer_band n) [ none ↦ null | some name ↦ str name ]

abbrev pub extra_keys : List Text
extra_keys =
    codes "occupancy_rms"
    ∷ codes "occupancy_peak"
    ∷ codes "wpm"
    ∷ codes "crest_db"
    ∷ codes "ssb_state"
    ∷ codes "ssb_score"
    ∷ codes "ssb_parse_method"
    ∷ []

-- The entries that go into the event as they are.
abbrev pub passed_keys : List Text
passed_keys =
    codes "snr_db"
    ∷ codes "crest_db"
    ∷ codes "df_hz"
    ∷ codes "confidence"
    ∷ codes "raw"
    ∷ codes "grid"
    ∷ codes "report"
    ∷ codes "time_s"
    ∷ codes "dt_s"
    ∷ codes "is_new"
    ∷ codes "path"
    ∷ codes "lat"
    ∷ codes "lon"
    ∷ codes "msg"
    ∷ codes "power_dbm"
    ∷ codes "rf_gated"
    ∷ codes "weather"
    ∷ codes "symbol_table"
    ∷ codes "symbol_code"
    ∷ []

event_with : Python → ScanState → Dict → (mode : Text) → Option Text → Option CallsignEvent
unfolding frequency_of infer_source
event_with py scan_state payload mode none = none
event_with py scan_state payload mode (some callsign) =
    let frequency_hz = frequency_of py (get_value (codes "frequency_hz") payload) in
    some (record {
      timestamp = or_else (get_value (codes "timestamp") payload) (str py.now);
      band = or_else (get_value (codes "band") payload) (band_name frequency_hz);
      frequency_hz = frequency_hz;
      mode = mode;
      callsign = callsign;
      payload =
          payload_blob py (get_value (codes "payload") payload) (extras_of extra_keys payload);
      source = or_else (get_value (codes "source") payload) (str (infer_source mode));
      device = or_else (get_value (codes "device") payload) scan_state.device;
      scan_id = or_else (get_value (codes "scan_id") payload) scan_state.scan_id;
      passed = map (λ key. (key, get_value key payload)) passed_keys;
    })

-- A report that is no dictionary is `none`.
pub build_callsign_event : Python → Option Dict → ScanState → Option CallsignEvent
unfolding event_with
build_callsign_event py none scan_state = none
build_callsign_event py (some payload) scan_state =
    let mode = normalize_mode (get_value (codes "mode") payload) in
    event_with py scan_state payload mode (
      callsign_of (checked_callsign (get_value (codes "callsign") payload))
        (may_be_nameless mode (get_value (codes "msg") payload) (get_value (codes "raw") payload)))
