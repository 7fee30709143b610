-- ===== src/Journal.antt =====
-- journal/src/journal.go: the log file, and the export of events and telemetry for the analytics.
-- L is the type sdk.TelemetryLog. What the file system and the package encoding/json answer is an
-- argument of the handlers.
pub mod Appending
use drones.Common.{
  ℕ, ◌/◌, String, append, Bool, true, false, not, ◌&&◌, ◌||◌, Option, none, some, List, [], ◌∷◌,
  ◌++◌, is_empty, if◌then◌else◌, to_upper, to_lower, trim_space, contains_text,
}
use drones.Message.{Fields, Value, str, bool, obj, fields, only, get, get_string, get_map, put}
use drones.Bus.{Result, ok, err, M, pure, gets, modify, now, now_text, ◌>>=◌, ◌>>◌}
use drones.Component.{is_trusted_sender}
use drones.Analytics.{AnalyticsClient, EventLog, Posting, Http, post_logs}

-- Journal, less the base component and the mutex, with the contents of the file and the postings
-- that the analytics client made, in order
pub record Journal (F L : Type 0) : Type 0 where
  pub analytics : AnalyticsClient F
  pub file : String
  pub events : List (Posting EventLog)
  pub logs : List (Posting L)

-- An error of os.MkdirAll and of os.OpenFile, and the part of the line that Write brought to the
-- file where it answers an error; where it answers none, the whole line is there.
pub record Disk : Type 0 where
  pub no_directory : Option String
  pub not_opened : Option String
  pub cut_short : Option String

-- the two arms of inferEventType
unfoldable pub infer_event_type : String → String
unfolding to_upper contains_text
infer_event_type event =
    let upper = to_upper event in
    if contains_text upper "EMERGENCY"
      || contains_text upper "ISOLATION"
      || contains_text upper "LIMITER"
    then "safety_event"
    else "event"

abbrev severity_of : String → String
severity_of upper =
    if contains_text upper "EMERGENCY"
      || contains_text upper "ABORT"
      || contains_text upper "ISOLATION"
    then "emergency"
    else if contains_text upper "WARNING" || contains_text upper "DEVIATION"
    then "warning"
    else "info"

abbrev text_or : Result String → String
text_or (ok line) = line
text_or (err e) = ""

-- s if it is not empty, and the default otherwise
abbrev pub or_default : String → String → String
or_default s d = if is_empty s then d else s

module _ {F : Type 0} where
  unfoldable pub infer_severity : String → Fields F → String
  unfolding to_upper to_lower contains_text trim_space
  infer_severity event payload =
      let own = trim_space (get_string payload "severity") in
      if is_empty own then severity_of (to_upper event) else to_lower own

  abbrev pub with_details : (Value F → Result String) → Option (Value F) → String
  with_details marshal none = ""
  with_details marshal (some details) = elim (marshal details) [
    | ok b ↦ append " details=" b
    | err e ↦ ""
  ]

  unfoldable pub build_analytics_message :
      (Value F → Result String) → String → String → Fields F → String
  unfolding trim_space
  build_analytics_message marshal source event payload =
      let mission_id = trim_space (get_string payload "mission_id") in
      append event (
        append (if is_empty source then "" else append " source=" source) (
          append (if is_empty mission_id then "" else append " mission_id=" mission_id)
            (with_details marshal (get payload "details"))))

  -- the source that a record names
  abbrev pub source_of : Fields F → Fields F → String
  source_of message payload = or_default (get_string payload "source") (get_string message "sender")

  -- the record of an event
  abbrev pub record_of : String → String → String → Fields F → Fields F
  record_of timestamp source event payload = fields (
      ("timestamp", str timestamp)
      ∷ ("source_component", str source)
      ∷ ("source_action", str "LOG_EVENT")
      ∷ ("event", str event)
      ∷ ("payload", obj payload)
      ∷ [])

  -- the line of a record, with the end of line
  abbrev second_try : (Value F → Result String) → Fields F → Result String → String
  second_try marshal r (ok line) = line
  second_try marshal r (err e) = text_or (
      marshal
        (obj (put r "payload" (obj (only "error" (str (append "non-serializable payload: " e)))))))

  unfoldable pub line_of : (Value F → Result String) → Fields F → String
  unfolding put
  line_of marshal r = append (second_try marshal r (marshal (obj r))) "\n"

  abbrev pub refused : String → Option (Fields F)
  refused e = some (fields (("ok", bool false) ∷ ("error", str e) ∷ []))

module _ {F L : Type 0} (marshal : Value F → Result String) where
  unfoldable pub post_analytics_event :
      Http → String → String → Fields F → M F (Journal F L) (Unit {0})
  unfolding infer_severity infer_event_type build_analytics_message post_logs
  post_analytics_event http source event payload = do
    j ← gets (λ j. j)
    if not j.analytics.enabled then pure tt else do
      t ← now
      let item : EventLog = record {
        api_version = j.analytics.api_version;
        timestamp = t / 1000000;
        event_type = infer_event_type event;
        service = j.analytics.service;
        service_id = j.analytics.service_id;
        severity = infer_severity event payload;
        message = build_analytics_message marshal source event payload;
      }
      modify (λ j. record j {
        events = j.events ++ (post_logs j.analytics "/log/event" (item ∷ []) http).1;
      })

  -- the write, and what follows it
  unfoldable pub write_line :
      Option String
      → Http
      → String
      → String
      → String
      → Fields F
      → M F (Journal F L) (Option (Fields F))
  unfolding post_analytics_event
  write_line (some part) http line source event payload = do
    modify (λ j. record j { file = append j.file part })
    pure (refused "write_failed")
  write_line none http line source event payload = do
    modify (λ j. record j { file = append j.file line })
    post_analytics_event http source event payload
    pure (some (only "ok" (bool true)))

  -- handleLogEvent once the line is made
  unfoldable pub append_line :
      Disk → Http → String → String → String → Fields F → M F (Journal F L) (Option (Fields F))
  unfolding write_line
  append_line disk http line source event payload = elim disk.no_directory [
    | some e ↦ pure (refused "write_failed")
    | none ↦ elim disk.not_opened [
      | some e ↦ pure (refused "write_failed")
      | none ↦ write_line disk.cut_short http line source event payload
    ]
  ]

  abbrev pub log_payload :
      Disk → Http → Fields F → Option (Fields F) → M F (Journal F L) (Option (Fields F))
  log_payload disk http message none = pure (refused "invalid_payload")
  log_payload disk http message (some payload) = do
    timestamp ← now_text
    let source = source_of message payload
    let event = or_default (get_string payload "event") "UNKNOWN"
    append_line disk http (line_of marshal (record_of timestamp source event payload)) source event
        payload

  unfoldable pub handle_log_event : Disk → Http → Fields F → M F (Journal F L) (Option (Fields F))
  unfolding line_of append_line
  handle_log_event disk http message =
      if not (is_trusted_sender message "security_monitor")
      then pure none
      else log_payload disk http message (get_map message "payload")

module _ {F L : Type 0} (decode : Value F → Option L) where
  -- what is answered for a posting, given its error
  abbrev forwarded : Option String → Option (Fields F)
  forwarded (some e) = refused (append "forward_failed: " e)
  forwarded none = some (fields (("ok", bool true) ∷ ("forwarded", bool true) ∷ []))

  unfoldable pub forward : Http → Option L → M F (Journal F L) (Option (Fields F))
  unfolding post_logs
  forward http none = pure (refused "invalid_telemetry_log")
  forward http (some item) = do
    j ← gets (λ j. j)
    let posted = post_logs j.analytics "/log/telemetry" (item ∷ []) http
    modify (λ j. record j { logs = j.logs ++ posted.1 })
    pure (forwarded posted.0)

  abbrev forward_raw : Http → Option (Value F) → M F (Journal F L) (Option (Fields F))
  forward_raw http none = pure (refused "missing_telemetry_log")
  forward_raw http (some raw) = forward http (decode raw)

  abbrev forward_payload : Http → Option (Fields F) → M F (Journal F L) (Option (Fields F))
  forward_payload http none = pure (refused "invalid_payload")
  forward_payload http (some payload) = forward_raw http (get payload "telemetry_log")

  -- handlePostTelemetry; decode is json.Marshal and json.Unmarshal into a TelemetryLog
  unfoldable pub handle_post_telemetry : Http → Fields F → M F (Journal F L) (Option (Fields F))
  unfolding forward
  handle_post_telemetry http message =
      if not (is_trusted_sender message "security_monitor") then pure none else do
        j ← gets (λ j. j)
        if not j.analytics.enabled
            then pure (some (fields (("ok", bool true) ∷ ("forwarded", bool false) ∷ [])))
            else forward_payload http (get_map message "payload")
