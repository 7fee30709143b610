-- ===== src/Emergency/Steady.antt =====
-- droneport_client.go: the requests to the drone port leave its configuration alone.
use drones.Common.{String, Bool, true, false, ◌≡◌, ℕ, Option, none, arith, is_empty}
use drones.Message.{Fields, empty}
use drones.Bus.{Result, ok, err, pure, modify}
use drones.Bus.Keeps.{Keeps, Keeps-bind, Keeps-if, Keeps-pure, Keeps-gets}
use drones.Component.Invariant.{proxy_request-Keeps}
use drones.Floats.{Floats}
use drones.Emergency.State.{Phase, journal, set_droneport_phase, DroneportConfig, Emergency}
use drones.Emergency.Session.{
  after_landing, landing_payload, wait_started, after_ready, granted, call_droneport,
  is_drone_ready, run_landing, check_charge_ready,
}

-- The configuration of the drone port is c.
abbrev pub Uses : {F : Type 0} → DroneportConfig F → Emergency F → Type 0
Uses c e = e.droneport ≡ c

module _ {F : Type 0} (c : DroneportConfig F) where
  pub call_droneport-Keeps :
      (topic action : String) (payload : Fields F)
      → Keeps (Uses c) (call_droneport topic action payload)
  unfolding call_droneport
  call_droneport-Keeps topic action payload = Keeps-bind _ _ (Keeps-gets (λ e. e)) λ e.
      Keeps-if (is_empty topic) (pure (err "droneport_disabled")) _
        (λ _. Keeps-pure (err "droneport_disabled"))
        λ _. proxy_request-Keeps e.droneport.droneport_proxy topic action payload

  pub journal-Keeps : (event : String) (details : Fields F) → Keeps (Uses c) (journal event details)
  journal-Keeps event details = record { kept = λ env r g h. h }

  pub phase-Keeps :
      (phase : Phase) → Keeps {F = F} (Uses c) (modify (set_droneport_phase {F = F} phase))
  phase-Keeps phase = record { kept = λ env r g h. h }

  after_landing-Keeps : (o : Result (Option (Fields F))) → Keeps (Uses c) (after_landing o)
  unfolding after_landing
  after_landing-Keeps (err e) = record { kept = λ env r g h. h }
  after_landing-Keeps (ok resp) = record { kept = λ env r g h. ground (arith, h) }

  pub run_landing-Keeps : (battery : F) → Keeps (Uses c) (run_landing battery)
  unfolding run_landing
  run_landing-Keeps battery = Keeps-bind _ _ (Keeps-gets (λ e. e)) λ e.
      Keeps-if (is_empty e.droneport.topic) (pure (granted none)) _ (λ _. Keeps-pure (granted none))
        λ _.
          Keeps-bind
            (call_droneport e.droneport.topic "request_landing"
              (landing_payload e.droneport battery))
            _
            (call_droneport-Keeps e.droneport.topic "request_landing"
              (landing_payload e.droneport battery))
            after_landing-Keeps

  wait_started-Keeps : Keeps (Uses c) (wait_started {F = F})
  unfolding wait_started
  wait_started-Keeps = record { kept = λ env r g h. ground (arith, h) }

  module _ (fl : Floats F) (scan_float : String → Option F) where
    pub is_drone_ready-Keeps : Keeps (Uses c) (is_drone_ready fl scan_float)
    unfolding is_drone_ready
    is_drone_ready-Keeps = record {
      kept = λ env r g h.
          let after =
            (call_droneport-Keeps r.state.droneport.orchestrator_topic "get_available_drones"
                empty).kept
              env r g h in
          ground (arith, h, after);
    }

    after_ready-Keeps :
        (started : ℕ) (o : Result Bool) → Keeps (Uses c) (after_ready fl scan_float started o)
    unfolding after_ready
    after_ready-Keeps started (err e) = record { kept = λ env r g h. h }
    after_ready-Keeps started (ok true) = record { kept = λ env r g h. h }
    after_ready-Keeps started (ok false) = record { kept = λ env r g h. ground (arith, h) }

    pub check_charge_ready-Keeps : Keeps (Uses c) (check_charge_ready fl scan_float)
    unfolding check_charge_ready
    check_charge_ready-Keeps = Keeps-bind wait_started _ wait_started-Keeps λ started.
        Keeps-bind (is_drone_ready fl scan_float) (after_ready fl scan_float started)
          is_drone_ready-Keeps (after_ready-Keeps started)
