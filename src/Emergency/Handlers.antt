-- ===== src/Emergency/Handlers.antt =====
-- emergency.go: the messages of the emergency component.
use drones.Common.{
  String, Bool, true, false, ◌&&◌, not, ◌==◌, Option, none, some, [], ◌∷◌, is_empty, if◌then◌else◌,
}
use drones.Message.{Fields, empty, fields, only, str, bool, obj, get_string, get_map, map_value}
use drones.Bus.{M, pure, gets, modify, publish, ◌>>=◌, ◌>>◌}
use drones.Floats.{Floats}
use drones.Component.{is_trusted_sender, proxy_publish_async, log_event}
use drones.Emergency.State.{phase_text, Emergency, journal}
use drones.Emergency.Port.{optional_landing_battery}
use drones.Emergency.Session.{Granted, granted, denied}
use drones.Emergency.Preflight.{
  Preflight, preflight_ok, preflight_pending, preflight_denied, run_preflight,
  run_post_mission_land,
}

module _ {F : Type 0} where
  abbrev pub refused : String → Fields F
  refused e = fields (("ok", bool false) ∷ ("error", str e) ∷ [])

  abbrev pub ignored : Fields F
  ignored = fields (("ok", bool false) ∷ ("ignored", bool true) ∷ [])

  abbrev pub done : Fields F
  done = only "ok" (bool true)

  abbrev error_or : String → Option (Fields F) → String
  error_or default none = default
  error_or default (some extra) =
      if is_empty (get_string extra "error") then default else get_string extra "error"

  abbrev pub set_active : Bool → Emergency F → Emergency F
  set_active b e = record e { active = b }

  -- What follows a stage of the protocol: its error ends the protocol.
  unfoldable pub after_stage :
      String
      → Option String
      → M F (Emergency F) (Option (Fields F))
      → M F (Emergency F) (Option (Fields F))
  after_stage e none next = next
  after_stage e (some x) next = do modify (set_active false); pure (some (refused e))

  abbrev pub isolation_start : String → String → Fields F
  isolation_start component_id mid = fields (
      ("action", str "ISOLATION_START")
      ∷ ("sender", str component_id)
      ∷ (
        "payload",
        obj (fields (("reason", str "LIMITER_EMERGENCY") ∷ ("mission_id", str mid) ∷ [])),
      )
      ∷ [])

  abbrev pub land_order : Fields F
  land_order = fields (("mode", str "AUTO_LAND") ∷ ("reason", str "emergency") ∷ [])

  abbrev pub close_order : Fields F
  close_order = only "reason" (str "emergency")

  abbrev or_empty : Option (Fields F) → Fields F
  or_empty none = empty
  or_empty (some m) = m

  abbrev pub protocol_started : String → Option (Fields F) → Fields F
  protocol_started mid details =
      fields (("mission_id", str mid) ∷ ("details", obj (or_empty details)) ∷ [])

  -- handleLimiterEvent once the event is EMERGENCY_LAND_REQUIRED
  unfoldable pub run_protocol : String → Option (Fields F) → M F (Emergency F) (Option (Fields F))
  unfolding after_stage
  run_protocol mid details = do
    modify (set_active true)
    e ← gets (λ e. e)
    isolated ← publish e.sec_monitor_topic (isolation_start e.component_id mid)
    after_stage "isolation_start_failed" isolated do
      closed ← proxy_publish_async e.proxy e.cargo_topic "CLOSE" close_order
      after_stage "cargo_close_failed" closed do
        landed ← proxy_publish_async e.proxy e.motors_topic "LAND" land_order
        after_stage "motors_land_failed" landed do
          logged ←
              log_event e.proxy e.journal_topic "emergency" "EMERGENCY_PROTOCOL_STARTED"
                (protocol_started mid details)
          after_stage "journal_log_failed" logged (pure (some done))

  abbrev on_limiter_payload : Option (Fields F) → M F (Emergency F) (Option (Fields F))
  on_limiter_payload none = pure (some ignored)
  on_limiter_payload (some payload) =
      if not (get_string payload "event" == "EMERGENCY_LAND_REQUIRED")
      then pure (some ignored)
      else run_protocol (get_string payload "mission_id") (get_map payload "details")

  unfoldable pub handle_limiter_event : Fields F → M F (Emergency F) (Option (Fields F))
  unfolding run_protocol
  handle_limiter_event message =
      if not (is_trusted_sender message "security_monitor")
        && not (is_trusted_sender message "limiter")
      then pure none
      else on_limiter_payload (get_map message "payload")

  abbrev on_droneport_payload : Option (Fields F) → M F (Emergency F) (Option (Fields F))
  on_droneport_payload none = pure (some (refused "invalid_payload"))
  on_droneport_payload (some payload) = do
    journal "DRONEPORT_EVENT_RECEIVED" payload
    pure (some done)

  unfoldable pub handle_droneport_event : Fields F → M F (Emergency F) (Option (Fields F))
  handle_droneport_event message =
      if not (is_trusted_sender message "droneport")
        && not (is_trusted_sender message "security_monitor")
      then pure none
      else on_droneport_payload (get_map message "payload")

  -- handleGetState with droneportStateSnapshot
  unfoldable pub handle_get_state : Fields F → M F (Emergency F) (Option (Fields F))
  handle_get_state message = do
    e ← gets (λ e. e)
    pure (
        some (
          fields (
            ("active", bool e.active)
            ∷ ("droneport_phase", str (phase_text e.droneport_phase))
            ∷ ("droneport_port_id", str e.droneport_port_id)
            ∷ ("droneport_last_error", str e.droneport_last_error)
            ∷ [])))

  abbrev takeoff_reply : Preflight F → Fields F
  takeoff_reply (preflight_ok extra) = fields (("ok", bool true) ∷ ("extra", map_value extra) ∷ [])
  takeoff_reply preflight_pending = fields (("ok", bool false) ∷ ("pending", bool true) ∷ [])
  takeoff_reply (preflight_denied extra) = fields (
      ("ok", bool false)
      ∷ ("error", str (error_or "droneport_denied" (some extra)))
      ∷ ("extra", obj extra)
      ∷ [])

  abbrev land_reply : Granted F → Fields F
  land_reply (granted extra) = done
  land_reply (denied e extra) = refused (error_or "droneport_land_denied" extra)

module _ {F : Type 0} (fl : Floats F) (scan_float : String → Option F) where
  abbrev take_off_payload : Option (Fields F) → M F (Emergency F) (Option (Fields F))
  take_off_payload none = pure (some (refused "invalid_payload"))
  take_off_payload (some payload) = do
    e ← gets (λ e. e)
    result ←
        run_preflight fl scan_float (get_string payload "mission_id")
          (optional_landing_battery fl scan_float payload e.droneport.landing_battery)
    pure (some (takeoff_reply result))

  unfoldable pub handle_droneport_takeoff : Fields F → M F (Emergency F) (Option (Fields F))
  handle_droneport_takeoff message =
      if not (is_trusted_sender message "security_monitor")
      then pure none
      else take_off_payload (get_map message "payload")

  abbrev land_payload : Option (Fields F) → M F (Emergency F) (Option (Fields F))
  land_payload none = pure (some (refused "invalid_payload"))
  land_payload (some payload) = do
    e ← gets (λ e. e)
    result ←
        run_post_mission_land (get_string payload "mission_id")
          (optional_landing_battery fl scan_float payload e.droneport.landing_battery)
    pure (some (land_reply result))

  unfoldable pub handle_droneport_land : Fields F → M F (Emergency F) (Option (Fields F))
  handle_droneport_land message =
      if not (is_trusted_sender message "security_monitor")
        && not (is_trusted_sender message "autopilot")
      then pure none
      else land_payload (get_map message "payload")
