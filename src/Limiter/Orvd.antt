-- ===== src/Limiter/Orvd.antt =====
-- opbd_client.go: the limiter's client of the air traffic authority, its incidents and telemetry.
use drones.Common.{
  String, Bool, true, false, ◌&&◌, ◌||◌, not, ◌==◌, Option, none, some, [], ◌∷◌, is_empty,
  if◌then◌else◌, trim_space, to_lower, equal_fold,
}
use drones.Message.{Fields, fields, str, float64, obj, get_string}
use drones.Bus.{Result, ok, err, M, pure, gets, ◌>>=◌, ◌>>◌}
use drones.Floats.{Floats}
use drones.Component.{proxy_request, proxy_publish_async}
use drones.Limiter.State.{Phase, Limiter, journal, get_float}

module _ {F : Type 0} where
  abbrev pub text_of : Option (Fields F) → String → String
  text_of none k = ""
  text_of (some m) k = get_string m k

  -- opbdStatus, trimmed after it is put in lower case
  unfoldable pub opbd_status : Option (Fields F) → String
  opbd_status resp = trim_space (to_lower (text_of resp "status"))

  -- callORVD
  unfoldable pub call_orvd : String → Fields F → M F (Limiter F) (Result (Option (Fields F)))
  unfolding proxy_request
  call_orvd action payload = do
    l ← gets (λ l. l)
    if is_empty l.orvd.topic
        then pure (err "orvd_disabled")
        else proxy_request l.orvd.orvd_proxy l.orvd.topic action payload

  -- setORVDPhase
  abbrev pub set_orvd_phase : Phase → Limiter F → Limiter F
  set_orvd_phase phase l = record l { orvd_phase = phase }

  abbrev pub withdraw_takeoff : Limiter F → Limiter F
  withdraw_takeoff l = record l { orvd_takeoff_authorized = false }

  abbrev pub incident_payload : String → String → String → String → F → F → Fields F
  incident_payload drone_id mid incident_type severity lat lon = fields (
      ("drone_id", str drone_id)
      ∷ ("mission_id", str mid)
      ∷ ("incident_type", str incident_type)
      ∷ ("severity", str severity)
      ∷ ("coords", obj (fields (("lat", float64 lat) ∷ ("lon", float64 lon) ∷ [])))
      ∷ [])

  -- reportORVDIncident; the answer is dropped
  unfoldable pub report_orvd_incident :
      String → String → String → F → F → M F (Limiter F) (Unit {0})
  report_orvd_incident mid incident_type severity lat lon = do
    l ← gets (λ l. l)
    if is_empty l.orvd.topic || l.orvd.mock_success then pure tt else do
      call_orvd "report_incident"
          (incident_payload l.orvd.drone_id mid incident_type severity lat lon)
      pure tt

  abbrev pub land_event : Fields F → Fields F
  land_event details =
      fields (("event", str "EMERGENCY_LAND_REQUIRED") ∷ ("details", obj details) ∷ [])

  -- publishOREmergencyFromORVD; an error of the broker is only printed
  unfoldable pub publish_emergency_from_orvd : String → M F (Limiter F) (Unit {0})
  publish_emergency_from_orvd reason = do
    let details = fields (("source", str "orvd") ∷ ("reason", str reason) ∷ [])
    journal "ORVD_EMERGENCY_LAND_REQUIRED" details
    l ← gets (λ l. l)
    proxy_publish_async l.proxy l.emergency_topic "limiter_event" (land_event details)
    pure tt

  abbrev pub telemetry_payload : String → F → F → F → Fields F
  telemetry_payload drone_id lat lon alt = fields (
      ("drone_id", str drone_id)
      ∷ ("coords", obj (fields (("lat", float64 lat) ∷ ("lon", float64 lon) ∷ [])))
      ∷ ("altitude", float64 alt)
      ∷ [])

module _ {F : Type 0} (fl : Floats F) where
  -- what the answer to the telemetry leads to
  unfoldable pub after_telemetry :
      String → F → F → Result (Option (Fields F)) → M F (Limiter F) (Unit {0})
  unfolding opbd_status
  after_telemetry mid lat lon (err e) = pure tt
  after_telemetry mid lat lon (ok resp) =
      if opbd_status resp == "emergency" && equal_fold (text_of resp "command") "LAND"
      then (do
        journal "ORVD_ZONE_VIOLATION"
            (fields (("mission_id", str mid) ∷ ("reason", str (text_of resp "reason")) ∷ []))
        report_orvd_incident mid "zone_violation" "critical" lat lon
        publish_emergency_from_orvd (text_of resp "reason"))
      else pure tt

  abbrev has_no_mission : Option (Fields F) → Bool
  has_no_mission none = true
  has_no_mission (some m) = false

  -- runORVDSendTelemetry
  unfoldable pub run_orvd_send_telemetry : Fields F → M F (Limiter F) (Unit {0})
  run_orvd_send_telemetry nav = do
    l ← gets (λ l. l)
    let lat = get_float fl nav "lat"
    let lon = get_float fl nav "lon"
    if is_empty l.orvd.topic || l.orvd.mock_success
        then pure tt
        else if not l.orvd_takeoff_authorized || has_no_mission l.mission
        then pure tt
        else do
          resp ←
              call_orvd "send_telemetry"
                (telemetry_payload l.orvd.drone_id lat lon (get_float fl nav "alt_m"))
          after_telemetry l.orvd_mission_id lat lon resp
