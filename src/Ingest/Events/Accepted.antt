-- ===== src/Ingest/Events/Accepted.antt =====
-- What holds of an event, whatever the decoder reported.
use ham_spectrum_analysis.Prelude.{Bool, Option}
use ham_spectrum_analysis.Text.{Text, codes}
use ham_spectrum_analysis.Ingest.Values.{Dict, Python, get_value}
use ham_spectrum_analysis.Ingest.Events.{
  CallsignEvent, ScanState, normalize_mode, checked_callsign, may_be_nameless, event_with,
}

module _ (py : Python) (payload : Dict) (scan_state : ScanState) where
  nameless : Bool
  nameless =
      may_be_nameless (normalize_mode (get_value (codes "mode") payload))
        (get_value (codes "msg") payload) (get_value (codes "raw") payload)

  checked : Option Text
  checked = checked_callsign (get_value (codes "callsign") payload)

  event_of : Option Text → Option CallsignEvent
  event_of = event_with py scan_state payload (normalize_mode (get_value (codes "mode") payload))
