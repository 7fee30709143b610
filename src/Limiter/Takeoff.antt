-- ===== src/Limiter/Takeoff.antt =====
-- opbd_client.go: the permission to take off, and the end of a mission.
use drones.Common.{
  String, Bool, true, false, ◌&&◌, ◌||◌, not, ◌==◌, Option, none, some, [], ◌∷◌, is_empty,
  if◌then◌else◌,
}
use drones.Message.{Fields, fields, only, str, bool, map_value}
use drones.Bus.{Result, ok, err, M, pure, gets, modify, date_time_now, ◌>>=◌, ◌>>◌}
use drones.Floats.{Floats}
use drones.Limiter.State.{takeoff_authorized, phase_completed, Limiter, journal}
use drones.Limiter.Orvd.{
  text_of, opbd_status, call_orvd, set_orvd_phase, withdraw_takeoff, run_orvd_send_telemetry,
}

module _ {F : Type 0} (fl : Floats F) where
  -- if nav != nil { l.runORVDSendTelemetry(ctx, nav) }
  abbrev pub send_known : Option (Fields F) → M F (Limiter F) (Unit {0})
  send_known none = pure tt
  send_known (some nav) = run_orvd_send_telemetry fl nav

  abbrev grant_takeoff : Limiter F → Limiter F
  grant_takeoff l = record l { orvd_takeoff_authorized = true; orvd_phase = takeoff_authorized }

  -- the critical section, the log entry and the telemetry of a granted take-off
  unfoldable pub takeoff_granted : Fields F → M F (Limiter F) (Bool × String)
  takeoff_granted details = do
    modify grant_takeoff
    nav ← gets (λ l. l.last_nav)
    journal "ORVD_TAKEOFF_AUTHORIZED" details
    send_known nav
    pure (true, "")

  unfoldable pub after_request_takeoff :
      String → Result (Option (Fields F)) → M F (Limiter F) (Bool × String)
  unfolding opbd_status
  after_request_takeoff mid (err e) = do
    journal "ORVD_TAKEOFF_DENIED" (fields (("mission_id", str mid) ∷ ("error", str e) ∷ []))
    pure (false, "orvd_takeoff_denied")
  after_request_takeoff mid (ok resp) =
      if opbd_status resp == "takeoff_authorized"
      then takeoff_granted (only "mission_id" (str mid))
      else if opbd_status resp == "takeoff_denied" || opbd_status resp == "error"
      then (do
        journal "ORVD_TAKEOFF_DENIED" (
            fields (
              ("mission_id", str mid)
              ∷ ("reason", str (text_of resp "reason"))
              ∷ ("response", map_value resp)
              ∷ []))
        pure (false, "orvd_takeoff_denied"))
      else pure (false, "orvd_takeoff_denied")

  abbrev pub takeoff_payload : String → String → String → Fields F
  takeoff_payload drone_id mid time =
      fields (("drone_id", str drone_id) ∷ ("mission_id", str mid) ∷ ("time", str time) ∷ [])

  -- runORVDRequestTakeoff: whether the take-off is granted, and the error. Its result "pending" is
  -- false on every branch.
  unfoldable pub run_orvd_request_takeoff : String → M F (Limiter F) (Bool × String)
  run_orvd_request_takeoff mid = do
    l ← gets (λ l. l)
    if is_empty l.orvd.topic
        then pure (true, "")
        else if l.orvd.mock_success
        then takeoff_granted (fields (("mission_id", str mid) ∷ ("stub", bool true) ∷ []))
        else if l.orvd_takeoff_authorized && l.orvd_mission_id == mid
        then pure (true, "")
        else do
          time ← date_time_now
          resp ← call_orvd "request_takeoff" (takeoff_payload l.orvd.drone_id mid time)
          after_request_takeoff mid resp

  abbrev complete : Limiter F → Limiter F
  complete l = withdraw_takeoff (set_orvd_phase phase_completed l)

  unfoldable pub after_complete : String → Result (Option (Fields F)) → M F (Limiter F) (Unit {0})
  unfolding opbd_status
  after_complete mid (err e) =
      journal "ORVD_COMPLETE_FAILED" (fields (("mission_id", str mid) ∷ ("error", str e) ∷ []))
  after_complete mid (ok resp) =
      if not (opbd_status resp == "mission_completed")
      then pure tt
      else do modify complete; journal "ORVD_MISSION_COMPLETED" (only "mission_id" (str mid))

  -- runORVDCompleteMission
  unfoldable pub run_orvd_complete_mission : String → String → M F (Limiter F) (Unit {0})
  run_orvd_complete_mission mid result = do
    l ← gets (λ l. l)
    if is_empty l.orvd.topic || l.orvd.mock_success then modify complete else do
      resp ← call_orvd "complete_mission" (
          fields (
            ("mission_id", str mid)
            ∷ ("drone_id", str l.orvd.drone_id)
            ∷ ("result", str result)
            ∷ []))
      after_complete mid resp
