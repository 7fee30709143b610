-- ===== src/Limiter/Authorization.antt =====
-- opbd_client.go: what the authority has answered when a mission counts as authorized.
use drones.Common.{
  String, Bool, true, false, ◌≡◌, refl, ◌⊎◌, inl, inr, Bool-cases, Option, arith, eq_iff, is_empty,
  if◌then◌else◌,
}
use drones.Message.{Fields, str, only, get_string}
use drones.Bus.{Result, ok, err, Env, Run, date_time_now}
use drones.Floats.{Floats}
use drones.Limiter.State.{authorized, phase_authorized, phase_denied, Limiter}
use drones.Limiter.Orvd.{opbd_status, call_orvd, withdraw_takeoff}
use drones.Limiter.Registration.{
  deny, verdict, register_payload, mission_payload, after_register_drone, register_drone,
  after_register_mission, register_mission, after_authorize, authorize_mission, and_then,
  run_orvd_mission_load,
}

module _ {F : Type 0} (env : Env F (Limiter F)) (r : Run F (Limiter F)) where
  -- The authority, asked at r, answers with a status.
  pub record Replied (action : String) (payload : Fields F) (status : String) : Type 0 where
    pub answer : Option (Fields F)
    pub arrived : (call_orvd action payload env r).0 ≡ ok answer
    pub says : opbd_status answer ≡ status

  after_register_drone-true :
      (mid : String) (o : Result (Option (Fields F)))
      → (after_register_drone mid o env r).0 ≡ true
      → (resp : Option (Fields F)) × (o ≡ ok resp) × (opbd_status resp ≡ "registered")
  unfolding after_register_drone deny
  after_register_drone-true mid (err e) h = cc
  after_register_drone-true mid (ok resp) h =
      (resp, refl, ground (arith, eq_iff (opbd_status resp) "registered"))

  after_register_mission-true :
      (mid : String) (o : Result (Option (Fields F)))
      → (after_register_mission mid o env r).0 ≡ true
      → (resp : Option (Fields F)) × (o ≡ ok resp) × (opbd_status resp ≡ "mission_registered")
  unfolding after_register_mission deny
  after_register_mission-true mid (err e) h = cc
  after_register_mission-true mid (ok resp) h =
      (resp, refl, ground (arith, eq_iff (opbd_status resp) "mission_registered"))

  after_authorize-true :
      (mid : String) (o : Result (Option (Fields F)))
      → (after_authorize mid o env r).0 ≡ true
      → (resp : Option (Fields F)) × (o ≡ ok resp) × (opbd_status resp ≡ "authorized")
  unfolding after_authorize deny
  after_authorize-true mid (err e) h = cc
  after_authorize-true mid (ok resp) h =
      (resp, refl, ground (arith, eq_iff (opbd_status resp) "authorized"))

  after_authorize-phase :
      (mid : String) (o : Result (Option (Fields F)))
      → (after_authorize mid o env r).1.state.orvd_phase
        ≡ (if (after_authorize mid o env r).0 then phase_authorized else phase_denied)
  unfolding after_authorize deny
  after_authorize-phase mid (err e) = refl
  after_authorize-phase mid (ok resp) = ground arith

module _ {F : Type 0} (env : Env F (Limiter F)) (r : Run F (Limiter F)) where
  register_drone-true :
      (mid : String)
      → (register_drone mid env r).0 ≡ true
      → (r.state.orvd_drone_registered ≡ true)
        ⊎ Replied env r "register_drone" (register_payload r.state.orvd) "registered"
  unfolding register_drone
  register_drone-true mid h = elim (Bool-cases r.state.orvd_drone_registered) [
    | inl known ↦ inl known
    | inr unknown ↦
        let p = register_payload r.state.orvd in
        let got =
          after_register_drone-true env (call_orvd "register_drone" p env r).1 mid
            (call_orvd "register_drone" p env r).0 (ground (arith, unknown, h)) in
        inr (record { answer = got.0; arrived = got.1; says = got.2 })
  ]

  authorize_mission-true :
      (mid : String)
      → (authorize_mission mid env r).0 ≡ true
      → Replied env r "authorize_mission" (only "mission_id" (str mid)) "authorized"
  unfolding authorize_mission
  authorize_mission-true mid h =
      let p = only "mission_id" (str mid) in
      let got =
        after_authorize-true env (call_orvd "authorize_mission" p env r).1 mid
          (call_orvd "authorize_mission" p env r).0 h in
      record { answer = got.0; arrived = got.1; says = got.2 }

  authorize_mission-phase :
      (mid : String)
      → (authorize_mission mid env r).1.state.orvd_phase
        ≡ (if (authorize_mission mid env r).0 then phase_authorized else phase_denied)
  unfolding authorize_mission
  authorize_mission-phase mid =
      after_authorize-phase env
        (call_orvd "authorize_mission" (only "mission_id" (str mid)) env r).1 mid
        (call_orvd "authorize_mission" (only "mission_id" (str mid)) env r).0

module _ {F : Type 0} (fl : Floats F) (env : Env F (Limiter F)) (mission : Fields F) where
  -- the run in which the time of a mission's registration is known
  abbrev pub timed : Run F (Limiter F) → Run F (Limiter F)
  timed r = (date_time_now env r).1

  -- what register_mission sends
  abbrev pub sent_mission : Run F (Limiter F) → Fields F
  sent_mission r =
      mission_payload fl r.state.orvd.drone_id (get_string mission "mission_id") mission
        (date_time_now env r).0

  register_mission-true :
      (r : Run F (Limiter F))
      → (register_mission fl mission env r).0 ≡ true
      → Replied env (timed r) "register_mission" (sent_mission r) "mission_registered"
  unfolding register_mission
  register_mission-true r h =
      let p = sent_mission r in
      let got =
        after_register_mission-true env (call_orvd "register_mission" p env (timed r)).1
          (get_string mission "mission_id") (call_orvd "register_mission" p env (timed r)).0 h in
      record { answer = got.0; arrived = got.1; says = got.2 }

  module _ (r : Run F (Limiter F)) where
    -- The runs after the permission of an earlier mission is withdrawn, after the drone is
    -- registered, and after the mission is.
    abbrev pub withdrawn : Run F (Limiter F)
    withdrawn = record r { state = withdraw_takeoff r.state }

    abbrev pub after_drone : Run F (Limiter F)
    after_drone = (register_drone (get_string mission "mission_id") env withdrawn).1

    abbrev pub after_mission : Run F (Limiter F)
    after_mission = (register_mission fl mission env after_drone).1

    abbrev granted : Bool
    granted =
        (and_then (register_drone (get_string mission "mission_id"))
          (and_then (register_mission fl mission)
            (authorize_mission (get_string mission "mission_id")))
          env withdrawn).0

    verdict-authorized : (b : Bool) → (verdict b).0 ≡ authorized → b ≡ true
    verdict-authorized true e = refl
    verdict-authorized false e = cc

    granted_all :
        granted ≡ true
        → ((register_drone (get_string mission "mission_id") env withdrawn).0 ≡ true)
          × ((register_mission fl mission env after_drone).0 ≡ true)
          × ((authorize_mission (get_string mission "mission_id") env after_mission).0 ≡ true)
    granted_all e = (ground (arith, e), ground (arith, e), ground (arith, e))

    -- With an authority configured and without the stub, a mission is authorized only when the drone
    -- is registered with the authority, or the authority answers now that it is, and then the
    -- authority answers "mission_registered" to the mission with its route and "authorized" to its
    -- identifier, in that order.
    pub run_orvd_mission_load-authorized :
        is_empty r.state.orvd.topic ≡ false
        → r.state.orvd.mock_success ≡ false
        → (run_orvd_mission_load fl mission env r).0.0 ≡ authorized
        → ((r.state.orvd_drone_registered ≡ true)
            ⊎ Replied env withdrawn "register_drone" (register_payload r.state.orvd) "registered")
          × Replied env
              (timed after_drone)
              "register_mission"
              (sent_mission after_drone)
              "mission_registered"
          × Replied env after_mission "authorize_mission"
              (only "mission_id" (str (get_string mission "mission_id")))
              "authorized"
    unfolding run_orvd_mission_load
    run_orvd_mission_load-authorized configured real e =
        let mid = get_string mission "mission_id" in
        let all = granted_all (verdict-authorized granted (ground (arith, configured, real, e))) in
        (
          register_drone-true env withdrawn mid all.0,
          register_mission-true after_drone all.1,
          authorize_mission-true env after_mission mid all.2,
        )
