-- ===== src/Autopilot/Preflight.antt =====
-- The clearances before the take-off: of the limiter, of the air traffic service behind it, and of
-- the drone port behind the emergency component.
use drones.Common.{
  ◌-◌, String, Bool, false, Option, none, some, [], ◌∷◌, ◌==◌, if◌then◌else◌, ◌&&◌, not, is_empty,
}
use drones.Message.{Fields, fields, empty, str, get, bool_of, string_of, only}
use drones.Bus.{Result, ok, err, M, pure, gets, modify, now, ◌>>=◌, ◌>>◌}
use drones.Floats.{Floats, lit}
use drones.Component.{proxy_request}
use drones.Autopilot.State.{
  executing, aborted, is_pre_flight, Autopilot, get_in, mission_id, journal,
}

-- What a check returns: "", preflightPending, or an error key.
pub data Clearance : Type 0 where
  cleared pending : Clearance
  refused : String → Clearance

module _ {F : Type 0} where
  -- the answer of checkLimiterAuthorization to the limiter's state
  unfoldable pub limiter_clearance : String → Result (Option (Fields F)) → Clearance
  limiter_clearance mid (err e) = refused "limiter_not_cleared"
  limiter_clearance mid (ok pl) =
      let status = string_of (get_in pl "orvd_status") in
      let orvd_mid = string_of (get_in pl "orvd_mission_id") in
      if status == "AUTHORIZED"
      then (if not (is_empty orvd_mid) && not (is_empty mid) && not (orvd_mid == mid)
          then refused "mission_id_mismatch"
          else cleared)
      else if status == "PENDING"
      then pending
      else refused "limiter_not_cleared"

  -- if mission == nil { return "no_mission" }
  abbrev pub with_mission :
      Option (Fields F) → (Fields F → M F (Autopilot F) Clearance) → M F (Autopilot F) Clearance
  with_mission none check = pure (refused "no_mission")
  with_mission (some mission) check = check mission

  -- checkLimiterAuthorization
  unfoldable pub check_limiter_authorization : M F (Autopilot F) Clearance
  check_limiter_authorization = do
    a ← gets (λ a. a)
    with_mission a.mission λ mission. do
      pl ← proxy_request a.proxy a.limiter_topic "get_state" empty
      pure (limiter_clearance (mission_id (some mission)) pl)

  abbrev pub is_takeoff_authorized : Result (Option (Fields F)) → Bool
  is_takeoff_authorized (err e) = false
  is_takeoff_authorized (ok pl) = bool_of (get_in pl "orvd_takeoff_authorized")

  abbrev pub takeoff_clearance : Result (Option (Fields F)) → Clearance
  takeoff_clearance (err e) = refused "orvd_takeoff_denied"
  takeoff_clearance (ok resp) =
      if bool_of (get_in resp "ok") then cleared else refused "orvd_takeoff_denied"

  -- requestORVDTakeoff
  unfoldable pub request_orvd_takeoff : M F (Autopilot F) Clearance
  request_orvd_takeoff = do
    a ← gets (λ a. a)
    with_mission a.mission λ mission. do
      pl ← proxy_request a.proxy a.limiter_topic "get_state" empty
      if is_takeoff_authorized pl then pure cleared else do
        resp ←
            proxy_request a.proxy a.limiter_topic "orvd_takeoff"
              (only "mission_id" (str (mission_id (some mission))))
        pure (takeoff_clearance resp)

  -- notifyORVDComplete; the answer is dropped
  unfoldable pub notify_orvd_complete : String → M F (Autopilot F) (Unit {0})
  unfolding proxy_request
  notify_orvd_complete mid = if is_empty mid then pure tt else do
    a ← gets (λ a. a)
    proxy_request a.proxy a.limiter_topic "orvd_complete"
        (fields (("mission_id", str mid) ∷ ("result", str "success") ∷ []))
    pure tt

  abbrev pub has_departed : Result (Option (Fields F)) → Bool
  has_departed (err e) = false
  has_departed (ok st) = string_of (get_in st "droneport_phase") == "DEPARTED"

  abbrev pub droneport_clearance : Result (Option (Fields F)) → Clearance
  droneport_clearance (err e) = refused "droneport_denied"
  droneport_clearance (ok pl) =
      if bool_of (get_in pl "pending")
      then pending
      else if bool_of (get_in pl "ok")
      then cleared
      else refused "droneport_denied"

  -- requestDroneportTakeoff
  unfoldable pub request_droneport_takeoff : M F (Autopilot F) Clearance
  request_droneport_takeoff = do
    a ← gets (λ a. a)
    with_mission a.mission λ mission. do
      st ← proxy_request a.proxy a.emergency_topic "get_state" empty
      if has_departed st then pure cleared else do
        pl ←
            proxy_request a.proxy a.emergency_topic "droneport_takeoff"
              (only "mission_id" (str (mission_id (some mission))))
        pure (droneport_clearance pl)

  -- the battery that notifyDroneportLand adds to its payload
  abbrev battery_of : Option (Fields F) → Fields F
  battery_of none = empty
  battery_of (some nav) = elim (get nav "battery_pct") [
    | some v ↦ only "battery_pct" v
    | none ↦ elim (get nav "battery") [ some v ↦ only "battery" v | none ↦ empty ]
  ]

  -- notifyDroneportLand
  unfoldable pub notify_droneport_land : String → M F (Autopilot F) (Unit {0})
  unfolding proxy_request
  notify_droneport_land mid = if is_empty mid then pure tt else do
    a ← gets (λ a. a)
    proxy_request a.proxy a.emergency_topic "droneport_land"
        (Fields.entry "mission_id" (str mid) (battery_of a.last_nav_state))
    pure tt

module _ {F : Type 0} (fl : Floats F) where
  -- timeout > 0 && !started.IsZero() && time.Since(started).Seconds() > timeout
  unfoldable pub has_timed_out : M F (Autopilot F) Bool
  has_timed_out = do
    a ← gets (λ a. a)
    if fl.lt (lit fl 0) a.preflight_timeout_sec
        then elim a.pre_flight_started_at [
          | none ↦ pure false
          | some started ↦ do t ← now; pure (fl.lt a.preflight_timeout_sec (fl.nanos (t - started)))
        ]
        else pure false

module _ {F : Type 0} where
  abbrev pub give_up : String → Autopilot F → Autopilot F
  give_up key a = record a { state = aborted; last_error = key }

  -- if a.state == StatePreFlight { a.state = StateAborted; a.lastError = errKey }
  abbrev pub abort_if_pre_flight : String → Autopilot F → Autopilot F
  abort_if_pre_flight key a = if is_pre_flight a.state then give_up key a else a

  -- go on with the next check, wait for the next round, or give up
  abbrev pub after : Clearance → M F (Autopilot F) (Unit {0}) → M F (Autopilot F) (Unit {0})
  after cleared next = next
  after pending next = pure tt
  after (refused key) next = modify (abort_if_pre_flight key)

  -- the last critical section of stepPreFlight
  unfoldable pub pass : M F (Autopilot F) (Unit {0})
  pass = do
    a ← gets (λ a. a)
    if not (is_pre_flight a.state) then pure tt else do
      modify λ a. record a { state = executing; last_error = "" }
      journal "AUTOPILOT_PREFLIGHT_PASSED" (only "mission_id" (str (mission_id a.mission)))

  unfoldable pub time_out : M F (Autopilot F) (Unit {0})
  time_out = do
    modify (give_up "preflight_timeout")
    a ← gets (λ a. a)
    journal "AUTOPILOT_PREFLIGHT_TIMEOUT" (only "mission_id" (str (mission_id a.mission)))

  unfoldable pub run_checks : M F (Autopilot F) (Unit {0})
  run_checks = do
    limiter ← check_limiter_authorization
    after limiter do
      takeoff ← request_orvd_takeoff
      after takeoff do droneport ← request_droneport_takeoff; after droneport pass

module _ {F : Type 0} (fl : Floats F) where
  -- stepPreFlight
  unfoldable pub step_pre_flight : M F (Autopilot F) (Unit {0})
  step_pre_flight = do
    a ← gets (λ a. a)
    if not (is_pre_flight a.state)
        then pure tt
        else do late ← has_timed_out fl; if late then time_out else run_checks
