-- ===== src/Limiter/Stable.antt =====
-- What the dialogue with the authority leaves alone: all but the phase, the permission to take off and
-- the registration of the drone.
use drones.Common.{String, Bool, true, false, ◌||◌, not, ◌==◌, Option, is_empty}
use drones.Message.{Fields, str, only, get_string}
use drones.Bus.{Result, ok, err, M}
use drones.Bus.Keeps.{Keeps, Keeps-bind, Keeps-then, Keeps-if, Keeps-pure, Keeps-gets, Keeps-modify}
use drones.Floats.{Floats}
use drones.Component.Invariant.{proxy_request-Keeps}
use drones.Limiter.State.{
  Phase, phase_denied, phase_authorized, drone_registered, mission_registered, Limiter, journal,
}
use drones.Limiter.Orvd.{incident_payload, opbd_status, call_orvd, report_orvd_incident}
use drones.Limiter.Registration.{
  deny, register_payload, mission_payload, after_register_drone, register_drone,
  after_register_mission, register_mission, after_authorize, authorize_mission, and_then,
  run_orvd_mission_load, verdict, load_without_authority, load_with_stub, load_with_authority,
}

pub record Stable {F : Type 0} (P : Limiter F → Type 0) : Type 0 where
  pub phased : (p : Phase) (l : Limiter F) → P l → P (record l { orvd_phase = p })
  pub permitted : (b : Bool) (l : Limiter F) → P l → P (record l { orvd_takeoff_authorized = b })
  pub registered : (l : Limiter F) → P l → P (record l { orvd_drone_registered = true })

module _ {F : Type 0} {P : Limiter F → Type 0} where
  pub call_orvd-Keeps : (action : String) (payload : Fields F) → Keeps P (call_orvd action payload)
  unfolding call_orvd
  call_orvd-Keeps action payload = Keeps-bind _ _ (Keeps-gets (λ l. l)) λ l.
      Keeps-if (is_empty l.orvd.topic) _ _ (λ e. Keeps-pure (err "orvd_disabled"))
        λ e. proxy_request-Keeps l.orvd.orvd_proxy l.orvd.topic action payload

  pub journal-Keeps : (event : String) (details : Fields F) → Keeps P (journal event details)
  journal-Keeps event details = record { kept = λ env r g h. h }

  pub report_orvd_incident-Keeps :
      (mid kind severity : String) (lat lon : F)
      → Keeps P (report_orvd_incident mid kind severity lat lon)
  unfolding report_orvd_incident
  report_orvd_incident-Keeps mid kind severity lat lon = Keeps-bind _ _ (Keeps-gets (λ l. l)) λ l.
      Keeps-if (is_empty l.orvd.topic || l.orvd.mock_success) _ _ (λ e. Keeps-pure tt)
        λ e.
          Keeps-then _ _
            (call_orvd-Keeps "report_incident"
              (incident_payload l.orvd.drone_id mid kind severity lat lon))
            (Keeps-pure tt)

  and_then-Keeps : (m n : M F (Limiter F) Bool) → Keeps P m → Keeps P n → Keeps P (and_then m n)
  and_then-Keeps m n k l =
      Keeps-bind _ _ k λ go_on. Keeps-if go_on _ _ (λ e. l) λ e. Keeps-pure false

module _ {F : Type 0} {P : Limiter F → Type 0} (st : Stable P) where
  deny-Keeps : (details : Fields F) → Keeps P (deny details)
  unfolding deny
  deny-Keeps details = record { kept = λ env r g h. st.phased phase_denied r.state h }

  after_register_drone-Keeps :
      (mid : String) (o : Result (Option (Fields F))) → Keeps P (after_register_drone mid o)
  unfolding after_register_drone
  after_register_drone-Keeps mid (err e) = deny-Keeps _
  after_register_drone-Keeps mid (ok resp) =
      Keeps-if (not (opbd_status resp == "registered")) _ _ (λ e. deny-Keeps _)
        λ e. record {
          kept = λ env r g h.
              st.registered (record r.state { orvd_phase = drone_registered })
                (st.phased drone_registered r.state h);
        }

  register_drone-Keeps : (mid : String) → Keeps P (register_drone mid)
  unfolding register_drone
  register_drone-Keeps mid = Keeps-bind _ _ (Keeps-gets (λ l. l)) λ l.
      Keeps-if l.orvd_drone_registered _ _ (λ e. Keeps-pure true)
        λ e.
          Keeps-bind _ _ (call_orvd-Keeps "register_drone" (register_payload l.orvd))
            λ resp. after_register_drone-Keeps mid resp

  after_register_mission-Keeps :
      (mid : String) (o : Result (Option (Fields F))) → Keeps P (after_register_mission mid o)
  unfolding after_register_mission
  after_register_mission-Keeps mid (err e) = deny-Keeps _
  after_register_mission-Keeps mid (ok resp) =
      Keeps-if (opbd_status resp == "rejected" || opbd_status resp == "error") _ _
        (λ e. deny-Keeps _)
        λ e.
          Keeps-if (not (opbd_status resp == "mission_registered")) _ _ (λ e. deny-Keeps _)
            λ e. record { kept = λ env r g h. st.phased mission_registered r.state h }

  after_authorize-Keeps :
      (mid : String) (o : Result (Option (Fields F))) → Keeps P (after_authorize mid o)
  unfolding after_authorize
  after_authorize-Keeps mid (err e) = deny-Keeps _
  after_authorize-Keeps mid (ok resp) =
      Keeps-if (not (opbd_status resp == "authorized")) _ _ (λ e. deny-Keeps _)
        λ e. record { kept = λ env r g h. st.phased phase_authorized r.state h }

  authorize_mission-Keeps : (mid : String) → Keeps P (authorize_mission mid)
  unfolding authorize_mission
  authorize_mission-Keeps mid =
      Keeps-bind _ _ (call_orvd-Keeps "authorize_mission" (only "mission_id" (str mid)))
        λ resp. after_authorize-Keeps mid resp

  load_without_authority-Keeps : Keeps P load_without_authority
  load_without_authority-Keeps = record {
    kept = λ env r g h.
        st.permitted false (record r.state { orvd_phase = phase_authorized })
          (st.phased phase_authorized r.state h);
  }

  load_with_stub-Keeps : (mid : String) → Keeps P (load_with_stub mid)
  load_with_stub-Keeps mid = record {
    kept = λ env r g h.
        st.registered
          (record r.state { orvd_phase = phase_authorized; orvd_takeoff_authorized = false })
          (st.permitted false (record r.state { orvd_phase = phase_authorized })
            (st.phased phase_authorized r.state h));
  }

  module _ (fl : Floats F) where
    register_mission-Keeps : (m : Fields F) → Keeps P (register_mission fl m)
    unfolding register_mission
    register_mission-Keeps m =
        Keeps-bind _ _ (record { kept = λ env r g h. h })
          λ time. Keeps-bind _ _ (Keeps-gets (λ l. l)) λ l.
            Keeps-bind _ _
              (call_orvd-Keeps "register_mission"
                (mission_payload fl l.orvd.drone_id (get_string m "mission_id") m time))
              λ resp. after_register_mission-Keeps (get_string m "mission_id") resp

    pub load_with_authority-Keeps : (m : Fields F) → Keeps P (load_with_authority fl m)
    load_with_authority-Keeps m =
        let mid = get_string m "mission_id" in
        Keeps-then _ _ (Keeps-modify _ (λ l. st.permitted false l)) (
          Keeps-bind _ _
            (and_then-Keeps _ _ (register_drone-Keeps mid)
              (and_then-Keeps _ _ (register_mission-Keeps m) (authorize_mission-Keeps mid)))
            λ granted. Keeps-pure (verdict granted))

    pub run_orvd_mission_load-Keeps : (m : Fields F) → Keeps P (run_orvd_mission_load fl m)
    unfolding run_orvd_mission_load
    run_orvd_mission_load-Keeps m = Keeps-bind _ _ (Keeps-gets (λ l. l)) λ l.
        Keeps-if (is_empty l.orvd.topic) load_without_authority _
          (λ e. load_without_authority-Keeps)
          λ e.
            Keeps-if l.orvd.mock_success (load_with_stub (get_string m "mission_id"))
              (load_with_authority fl m) (λ e. load_with_stub-Keeps (get_string m "mission_id"))
              λ e. load_with_authority-Keeps m
