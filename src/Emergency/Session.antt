-- ===== src/Emergency/Session.antt =====
-- droneport_client.go: the requests to the drone port.
use drones.Common.{
  ℕ, ◌+◌, ◌-◌, ◌*◌, ◌%◌, ◌^◌, suc, String, Bool, true, false, not, Option, none, some, [], ◌∷◌,
  is_empty, ltb, if◌then◌else◌,
}
use drones.Message.{pos, negsuc, Fields, empty, entry, fields, only, str, float64, get_items, Items}
use drones.Bus.{Result, ok, err, M, pure, gets, modify, now, ◌>>=◌, ◌>>◌}
use drones.Floats.{Floats}
use drones.Component.{proxy_request}
use drones.Emergency.State.{DroneportConfig, Emergency, charging, ready, departed}
use drones.Emergency.Port.{
  unwrap_droneport_body, has_error, droneport_landing_ok, droneport_takeoff_ok, error_text,
  port_id_of, any_charged,
}

-- The results of runLanding and runTakeoff: the response, or the error and the response.
pub data Granted (F : Type 0) : Type 0 where
  granted : Option (Fields F) → Granted F
  denied : String → Option (Fields F) → Granted F

-- The results of checkChargeReady.
pub data Charge : Type 0 where
  is_ready timed_out still_charging : Charge

module _ {F : Type 0} where
  -- callDroneport
  unfoldable pub call_droneport :
      String → String → Fields F → M F (Emergency F) (Result (Option (Fields F)))
  unfolding proxy_request
  call_droneport topic action payload = do
    e ← gets (λ e. e)
    if is_empty topic
        then pure (err "droneport_disabled")
        else proxy_request e.droneport.droneport_proxy topic action payload

  abbrev keep_landing : String → Emergency F → Emergency F
  keep_landing port_id e = record e { droneport_port_id = port_id; droneport_phase = charging }

  -- what runLanding makes of the answer
  unfoldable pub after_landing : Result (Option (Fields F)) → M F (Emergency F) (Granted F)
  after_landing (err e) = pure (denied e (some (only "error" (str e))))
  after_landing (ok resp) =
      if not (droneport_landing_ok resp)
      then pure (denied (error_text resp "landing_denied") resp)
      else do modify (keep_landing (port_id_of resp)); pure (granted resp)

  abbrev pub landing_payload : DroneportConfig F → F → Fields F
  landing_payload c battery = fields (
      ("drone_id", str c.drone_id)
      ∷ ("model", str c.drone_model)
      ∷ ("battery", float64 battery)
      ∷ [])

  -- runLanding
  unfoldable pub run_landing : F → M F (Emergency F) (Granted F)
  unfolding after_landing
  run_landing battery = do
    e ← gets (λ e. e)
    if is_empty e.droneport.topic then pure (granted none) else do
      resp ←
          call_droneport e.droneport.topic "request_landing" (landing_payload e.droneport battery)
      after_landing resp

  abbrev keep_takeoff : String → Emergency F → Emergency F
  keep_takeoff port_id e = record e {
    droneport_port_id = if is_empty port_id then e.droneport_port_id else port_id;
    droneport_phase = departed;
    droneport_last_error = "";
  }

  -- what runTakeoff makes of the answer
  unfoldable pub after_takeoff : Result (Option (Fields F)) → M F (Emergency F) (Granted F)
  after_takeoff (err e) = pure (denied e (some (only "error" (str e))))
  after_takeoff (ok resp) =
      if not (droneport_takeoff_ok resp)
      then pure (denied (error_text resp "takeoff_denied") resp)
      else do modify (keep_takeoff (port_id_of resp)); pure (granted resp)

  abbrev pub takeoff_payload : DroneportConfig F → String → Fields F
  takeoff_payload c mid =
      entry "drone_id" (str c.drone_id)
        (if is_empty mid then empty else only "mission_id" (str mid))

  -- runTakeoff
  unfoldable pub run_takeoff : String → M F (Emergency F) (Granted F)
  unfolding after_takeoff
  run_takeoff mid = do
    e ← gets (λ e. e)
    if is_empty e.droneport.topic then pure (granted none) else do
      resp ← call_droneport e.droneport.topic "request_takeoff" (takeoff_payload e.droneport mid)
      after_takeoff resp

  -- the drones in the body of an answer; a body with an error has none for us
  abbrev drones_of : Option (Fields F) → Items F
  drones_of none = Items.nil
  drones_of (some body) = if has_error body then Items.nil else get_items body "drones"

  abbrev pub keep_wait : Option ℕ → Emergency F → Emergency F
  keep_wait at e = record e { droneport_charge_wait_at = at }

  -- the beginning of the wait, which begins now if it has not
  unfoldable pub wait_started : M F (Emergency F) ℕ
  wait_started = do
    since ← gets (λ e. e.droneport_charge_wait_at)
    elim since [ some t ↦ pure t | none ↦ do t ← now; modify (keep_wait (some t)); now ]

module _ {F : Type 0} (fl : Floats F) (scan_float : String → Option F) where
  abbrev is_listed : Emergency F → Result (Option (Fields F)) → Result Bool
  is_listed e (err x) = err x
  is_listed e (ok resp) = ok (
      any_charged fl scan_float e.droneport.drone_id e.droneport.min_battery_takeoff
        (drones_of (unwrap_droneport_body resp)))

  -- isDroneReady, less the charge, which its callers drop
  unfoldable pub is_drone_ready : M F (Emergency F) (Result Bool)
  is_drone_ready = do
    e ← gets (λ e. e)
    if is_empty e.droneport.orchestrator_topic then pure (err "orchestrator_topic_unset") else do
      resp ← call_droneport e.droneport.orchestrator_topic "get_available_drones" empty
      pure (is_listed e resp)

  -- started plus a time.Duration, whose 64 bits are d; one in the upper half is negative
  abbrev add_duration : ℕ → ℕ → ℕ
  add_duration started d = if ltb d (2 ^ 63) then started + d else started - (2 ^ 64 - d)

  -- started.Add(time.Duration(timeout) * time.Second): the product is one of 64 bits
  abbrev pub deadline : ℕ → F → ℕ
  deadline started timeout = elim (fl.to_int timeout) [
    | pos n ↦ add_duration started ((n * 10 ^ 9) % 2 ^ 64)
    | negsuc n ↦ add_duration started ((2 ^ 64 - (suc n * 10 ^ 9) % 2 ^ 64) % 2 ^ 64)
  ]

  abbrev finish_wait : Emergency F → Emergency F
  finish_wait e = record e { droneport_phase = ready; droneport_charge_wait_at = none }

  -- the end of checkChargeReady
  unfoldable pub after_ready : ℕ → Result Bool → M F (Emergency F) (Result Charge)
  after_ready started (err e) = pure (err e)
  after_ready started (ok true) = do modify finish_wait; pure (ok is_ready)
  after_ready started (ok false) = do
    t ← now
    e ← gets (λ e. e)
    if ltb (deadline started e.droneport.charge_timeout_sec) t
        then (do modify (keep_wait none); pure (ok timed_out))
        else pure (ok still_charging)

  -- checkChargeReady
  unfoldable pub check_charge_ready : M F (Emergency F) (Result Charge)
  unfolding wait_started is_drone_ready after_ready
  check_charge_ready = do
    started ← wait_started
    listed ← is_drone_ready
    after_ready started listed
