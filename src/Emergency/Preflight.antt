-- ===== src/Emergency/Preflight.antt =====
-- droneport_client.go: runPreflight and runPostMissionLand.
use drones.Common.{
  String, Bool, true, false, ◌&&◌, ◌==◌, Option, none, some, [], ◌∷◌, is_empty, if◌then◌else◌,
}
use drones.Message.{Fields, fields, only, str, bool, float64, map_value}
use drones.Bus.{Result, ok, err, M, pure, gets, modify, ◌>>=◌, ◌>>◌}
use drones.Floats.{Floats}
use drones.Emergency.State.{
  Phase, phase_disabled, not_registered, charging, ready, departed, is_disabled, Emergency, journal,
  set_droneport_phase, set_droneport_error,
}
use drones.Emergency.Session.{
  Granted, granted, denied, Charge, is_ready, timed_out, still_charging, run_landing, run_takeoff,
  is_drone_ready, check_charge_ready, keep_wait,
}

-- The results of runPreflight, with the extra fields.
pub data Preflight (F : Type 0) : Type 0 where
  preflight_ok : Option (Fields F) → Preflight F
  preflight_pending : Preflight F
  preflight_denied : Fields F → Preflight F

abbrev pub is_departed : Phase → Bool
is_departed departed = true
is_departed _ = false

abbrev pub is_charging : Phase → Bool
is_charging charging = true
is_charging _ = false

module _ {F : Type 0} where
  -- a refusal: the error is kept and logged under an event
  unfoldable pub refuse : String → String → Fields F → Fields F → M F (Emergency F) (Preflight F)
  refuse event e details extra = do
    modify (set_droneport_error e)
    journal event details
    pure (preflight_denied extra)

  abbrev pub with_error : String → String → Fields F
  with_error mid e = fields (("mission_id", str mid) ∷ ("error", str e) ∷ [])

  abbrev pub with_response : String → String → Option (Fields F) → Fields F
  with_response mid e resp =
      fields (("mission_id", str mid) ∷ ("error", str e) ∷ ("response", map_value resp) ∷ [])

  abbrev error_response : String → Option (Fields F) → Fields F
  error_response e resp = fields (("error", str e) ∷ ("response", map_value resp) ∷ [])

  -- the end of runPreflight: the take-off
  unfoldable pub after_run_takeoff : String → Granted F → M F (Emergency F) (Preflight F)
  unfolding refuse
  after_run_takeoff mid (denied e resp) =
      refuse "DRONEPORT_TAKEOFF_DENIED" e (with_response mid e resp) (error_response e resp)
  after_run_takeoff mid (granted resp) = do
    journal "DRONEPORT_TAKEOFF_APPROVED" (only "mission_id" (str mid))
    pure (preflight_ok resp)

  unfoldable pub take_off : String → M F (Emergency F) (Preflight F)
  unfolding run_takeoff after_run_takeoff
  take_off mid = do g ← run_takeoff mid; after_run_takeoff mid g

  -- if !ready { … }: what follows checkChargeReady
  unfoldable pub after_charge : String → Result Charge → M F (Emergency F) (Preflight F)
  unfolding refuse take_off
  after_charge mid (err e) =
      refuse "DRONEPORT_TAKEOFF_DENIED" e (with_error mid e) (only "error" (str e))
  after_charge mid (ok timed_out) =
      refuse "DRONEPORT_CHARGE_TIMEOUT" "charge_timeout" (only "mission_id" (str mid))
        (only "error" (str "charge_timeout"))
  after_charge mid (ok still_charging) = pure preflight_pending
  after_charge mid (ok is_ready) = take_off mid

module _ {F : Type 0} (fl : Floats F) (scan_float : String → Option F) where
  unfoldable pub await_charge : String → M F (Emergency F) (Preflight F)
  unfolding check_charge_ready after_charge
  await_charge mid = do charge ← check_charge_ready fl scan_float; after_charge mid charge

  -- what follows the landing for a charge
  unfoldable pub after_run_landing : String → F → Granted F → M F (Emergency F) (Preflight F)
  unfolding await_charge refuse
  after_run_landing mid batt (denied e resp) =
      refuse "DRONEPORT_LANDING_DENIED" e (with_response mid e resp) (error_response e resp)
  after_run_landing mid batt (granted resp) = do
    journal "DRONEPORT_LANDING_APPROVED"
        (fields (("mission_id", str mid) ∷ ("battery", float64 batt) ∷ []))
    modify (set_droneport_phase charging)
    journal "DRONEPORT_CHARGING_WAIT" (only "mission_id" (str mid))
    await_charge mid

  -- what follows the first question whether the drone is ready
  unfoldable pub after_first_look :
      String → F → Phase → Result Bool → M F (Emergency F) (Preflight F)
  unfolding run_landing after_run_landing
  after_first_look mid batt phase (err e) =
      refuse "DRONEPORT_TAKEOFF_DENIED" e (with_error mid e) (only "error" (str e))
  after_first_look mid batt phase (ok true) = do modify (set_droneport_phase ready); take_off mid
  after_first_look mid batt phase (ok false) = if is_charging phase then await_charge mid else do
    modify (set_droneport_phase not_registered)
    g ← run_landing batt
    after_run_landing mid batt g

  abbrev pub begin_session : String → Emergency F → Emergency F
  begin_session mid e = record e { droneport_last_mission_id = mid }

  -- runPreflight with the drone port in use
  unfoldable pub preflight_at_port : String → F → M F (Emergency F) (Preflight F)
  unfolding is_drone_ready after_first_look
  preflight_at_port mid batt = do
    e ← gets (λ e. e)
    if is_departed e.droneport_phase && e.droneport_last_mission_id == mid
        then pure (preflight_ok (some (only "already_departed" (bool true))))
        else if is_departed e.droneport_phase
        then (do
          modify (set_droneport_error "already_departed")
          pure (preflight_denied (only "error" (str "already_departed"))))
        else do
          modify (begin_session mid)
          listed ← is_drone_ready fl scan_float
          after_first_look mid batt e.droneport_phase listed

  -- runPreflight; batt is the charge that the payload names, or the default
  unfoldable pub run_preflight : String → F → M F (Emergency F) (Preflight F)
  unfolding preflight_at_port
  run_preflight mid batt = do
    e ← gets (λ e. e)
    if is_disabled e.droneport
        then (do modify (set_droneport_phase phase_disabled); pure (preflight_ok none))
        else if e.droneport.mock_success
        then (do
          journal "DRONEPORT_TAKEOFF_APPROVED" (
              fields (
                ("mission_id", str mid)
                ∷ ("stub", bool true)
                ∷ ("reason", str "EMERGENCY_DRONEPORT_MOCK_SUCCESS")
                ∷ []))
          modify (set_droneport_phase departed)
          pure (preflight_ok none))
        else preflight_at_port mid batt

module _ {F : Type 0} where
  -- what runPostMissionLand makes of the landing
  unfoldable pub after_post_landing : String → F → Granted F → M F (Emergency F) (Granted F)
  after_post_landing mid batt (denied e resp) = do
    modify (set_droneport_error e)
    journal "DRONEPORT_LANDING_DENIED" (with_response mid e resp)
    pure (denied e (some (error_response e resp)))
  after_post_landing mid batt (granted resp) = do
    modify (keep_wait none)
    journal "DRONEPORT_LAND_COMPLETE"
        (fields (("mission_id", str mid) ∷ ("battery", float64 batt) ∷ []))
    pure (granted resp)

  -- runPostMissionLand
  unfoldable pub run_post_mission_land : String → F → M F (Emergency F) (Granted F)
  unfolding run_landing after_post_landing
  run_post_mission_land mid batt = do
    e ← gets (λ e. e)
    if is_empty e.droneport.topic
        then (do modify (set_droneport_phase phase_disabled); pure (granted none))
        else if e.droneport.mock_success
        then (do
          modify (λ e. record e { droneport_phase = charging; droneport_charge_wait_at = none })
          journal "DRONEPORT_LAND_COMPLETE"
              (fields (("mission_id", str mid) ∷ ("stub", bool true) ∷ []))
          pure (granted none))
        else do g ← run_landing batt; after_post_landing mid batt g
