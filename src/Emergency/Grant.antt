-- ===== src/Emergency/Grant.antt =====
-- droneport_client.go: what a granted take-off rests on.
use drones.Common.{
  String, true, false, ◌≡◌, refl, ap, inl, inr, Option, List, [], ◌∷◌, arith, Bool-cases, is_empty,
}
use drones.Message.{Fields, fields, only, str, obj}
use drones.Bus.{Result, ok, err, Env, Run, Event, published, requested}
use drones.Component.{proxy_message, proxy_answer, proxy_request}
use drones.Emergency.State.{departed, DroneportConfig, Emergency}
use drones.Emergency.Port.{droneport_takeoff_ok}
use drones.Emergency.Session.{
  Granted, granted, denied, call_droneport, after_takeoff, takeoff_payload, run_takeoff,
}
use drones.Emergency.Preflight.{preflight_ok, refuse, after_run_takeoff}

-- The request for a take-off that goes to the security monitor.
abbrev pub takeoff_request : {F : Type 0} → DroneportConfig F → String → Fields F
takeoff_request c mid =
    proxy_message "proxy_request" c.droneport_proxy c.topic "request_takeoff"
      (takeoff_payload c mid)

-- the entry for the journal about an approved take-off
abbrev pub approval : {F : Type 0} → Emergency F → String → Event F
approval e mid = published e.proxy.security_monitor_topic (
    proxy_message "proxy_publish" e.proxy e.journal_topic "LOG_EVENT" (
      fields (
        ("event", str "DRONEPORT_TAKEOFF_APPROVED")
        ∷ ("source", str "emergency")
        ∷ ("details", obj (only "mission_id" (str mid)))
        ∷ [])))

module _ {F : Type 0} (env : Env F (Emergency F)) where
  -- After the events `before` the drone port was asked for the take-off, and it allowed it; the drone
  -- counts as departed then.
  pub record Permitted (c : DroneportConfig F) (mid : String) (last : Run F (Emergency F))
      : Type 0 where
    pub before : List (Event F)
    pub answer : Option (Fields F)
    pub answered :
        proxy_answer
          (env.request before c.droneport_proxy.security_monitor_topic (takeoff_request c mid))
        ≡ ok answer
    pub permits : droneport_takeoff_ok answer ≡ true
    pub recorded :
        last.events
        ≡ requested c.droneport_proxy.security_monitor_topic (takeoff_request c mid) ∷ before
    pub leaves : last.state.droneport_phase ≡ departed

  -- The same, after an entry for the journal.
  pub record Allowed (c : DroneportConfig F) (mid : String) (last : Run F (Emergency F))
      : Type 0 where
    pub before : List (Event F)
    pub answer : Option (Fields F)
    pub logged_by : Emergency F
    pub answered :
        proxy_answer
          (env.request before c.droneport_proxy.security_monitor_topic (takeoff_request c mid))
        ≡ ok answer
    pub permits : droneport_takeoff_ok answer ≡ true
    pub recorded :
        last.events
        ≡ approval logged_by mid
          ∷ requested c.droneport_proxy.security_monitor_topic (takeoff_request c mid)
          ∷ before
    pub leaves : last.state.droneport_phase ≡ departed

  after_takeoff-granted :
      (o : Result (Option (Fields F))) (r : Run F (Emergency F)) (x : Option (Fields F))
      → (after_takeoff o env r).0 ≡ granted x
      → (resp : Option (Fields F)) × (o ≡ ok resp)
        × (droneport_takeoff_ok resp ≡ true)
        × ((after_takeoff o env r).1.state.droneport_phase ≡ departed)
        × ((after_takeoff o env r).1.events ≡ r.events)
  unfolding after_takeoff
  after_takeoff-granted (err e) r x h = cc
  after_takeoff-granted (ok resp) r x h = elim (Bool-cases (droneport_takeoff_ok resp)) [
    | inl fine ↦ (resp, refl, fine, ground (arith, fine), ground (arith, fine))
    | inr bad ↦ ground (arith, bad, h)
  ]

  pub run_takeoff-granted :
      (mid : String) (r : Run F (Emergency F)) (x : Option (Fields F))
      → is_empty r.state.droneport.topic ≡ false
      → (run_takeoff mid env r).0 ≡ granted x
      → Permitted r.state.droneport mid (run_takeoff mid env r).1
  unfolding run_takeoff call_droneport proxy_request
  run_takeoff-granted mid r x set_up h =
      let c = r.state.droneport in
      let call =
        proxy_request c.droneport_proxy c.topic "request_takeoff" (takeoff_payload c mid) env r in
      let got = after_takeoff-granted call.0 call.1 x (ground (arith, set_up, h)) in
      record {
        before = r.events;
        answer = got.0;
        answered = got.1;
        permits = got.2;
        recorded = ground (arith, set_up, got.4);
        leaves = ground (arith, set_up, got.3);
      }

  pub after_run_takeoff_sound :
      (c : DroneportConfig F) (mid : String) (g : Granted F) (r : Run F (Emergency F))
      → ((x : Option (Fields F)) → g ≡ granted x → Permitted c mid r)
      → (x : Option (Fields F)) → (after_run_takeoff mid g env r).0 ≡ preflight_ok x
      → Allowed c mid (after_run_takeoff mid g env r).1
  unfolding after_run_takeoff refuse
  after_run_takeoff_sound c mid (denied e resp) r k x h = cc
  after_run_takeoff_sound c mid (granted resp) r k x h =
      let a = k resp refl in
      record {
        before = a.before;
        answer = a.answer;
        logged_by = r.state;
        answered = a.answered;
        permits = a.permits;
        recorded = ap (λ l. approval r.state mid ∷ l) a.recorded;
        leaves = a.leaves;
      }
