-- ===== src/Limiter/Limits.antt =====
-- limiter.go: the limits of the geofence over any messages and rounds of the control loop.
use drones.Common.{String, true, ◌≡◌, inl, inr, Option, none, some, [], ◌∷◌, arith, Option-cases}
use drones.Message.{Fields, Value, bool, str, get_map, fields, only}
use drones.Bus.{Result, ok, err, Run, date_time_now}
use drones.Bus.Keeps.{Keeps, Keeps-pure}
use drones.Floats.{Floats, lit}
use drones.Limiter.State.{Limiter, journal, get_float, takeoff_authorized}
use drones.Limiter.Bounds.{validate_mission_bounds}
use drones.Limiter.Orvd.{
  text_of, call_orvd, telemetry_payload, after_telemetry, run_orvd_send_telemetry,
  publish_emergency_from_orvd,
}
use drones.Limiter.Takeoff.{
  takeoff_payload, takeoff_granted, after_request_takeoff, run_orvd_request_takeoff, after_complete,
  send_known,
}
use drones.Limiter.Stable.{
  Stable, call_orvd-Keeps, report_orvd_incident-Keeps, run_orvd_mission_load-Keeps,
}
use drones.Limiter.Handlers.{
  positive_or, apply_limits, apply_constraints, apply_config_payload, load_mission,
  handle_mission_load, handle_update_config, handle_revoke_takeoff,
}

module _ {F : Type 0} (fl : Floats F) where
  -- Both limits are above zero.
  abbrev pub Positive : Limiter F → Type 0
  Positive l =
      (fl.lt (lit fl 0) l.max_distance_from_path_m ≡ true)
      × (fl.lt (lit fl 0) l.max_alt_deviation_m ≡ true)

  positive_or-positive :
      (old : F) (v : Option (Value F))
      → fl.lt (lit fl 0) old ≡ true
      → fl.lt (lit fl 0) (positive_or fl old v) ≡ true
  unfolding positive_or
  positive_or-positive old v h = ground (arith, h)

  apply_limits-Positive :
      (m : Fields F) (l : Limiter F) → Positive l → Positive (apply_limits fl m l)
  apply_limits-Positive m l h = (positive_or-positive _ _ h.0, positive_or-positive _ _ h.1)

  apply_constraints-Positive :
      (m : Option (Fields F)) (l : Limiter F) → Positive l → Positive (apply_constraints fl m l)
  apply_constraints-Positive none l h = h
  apply_constraints-Positive (some m) l h = apply_limits-Positive m l h

  pub apply_config_payload-Positive :
      (m : Fields F) (l : Limiter F) → Positive l → Positive (apply_config_payload fl m l)
  unfolding apply_config_payload
  apply_config_payload-Positive m l h =
      apply_constraints-Positive (get_map m "constraints") (apply_limits fl m l)
        (apply_limits-Positive m l h)

  Positive-Stable : Stable Positive
  Positive-Stable = record { phased = λ p l h. h; permitted = λ b l h. h; registered = λ l h. h }

  pub update_config-Keeps : (m : Fields F) → Keeps Positive (handle_update_config fl m)
  unfolding handle_update_config
  update_config-Keeps m = record {
    kept = λ env r g h. elim (Option-cases (get_map m "payload")) [
      | inl absent ↦ ground (arith, h, absent)
      | inr (payload, found) ↦
          ground (arith, h, found, apply_config_payload-Positive payload r.state h)
    ];
  }

  load_mission-Keeps : (m : Fields F) (b : Option String) → Keeps Positive (load_mission fl m b)
  unfolding load_mission
  load_mission-Keeps m (some e) = record { kept = λ env r g h. h }
  load_mission-Keeps m none = record {
    kept = λ env r g h. (run_orvd_mission_load-Keeps Positive-Stable fl m).kept env _ g h;
  }

  pub revoke-Keeps : (m : Fields F) → Keeps Positive (handle_revoke_takeoff fl m)
  unfolding handle_revoke_takeoff publish_emergency_from_orvd
  revoke-Keeps m = record { kept = λ env r g h. ground (arith, h) }

  pub mission_load-Keeps : (m : Fields F) → Keeps Positive (handle_mission_load fl m)
  unfolding handle_mission_load
  mission_load-Keeps m = record {
    kept = λ env r g h. elim (Option-cases (get_map m "payload")) [
      | inl absent ↦ ground (arith, h, absent)
      | inr (payload, found) ↦ elim (Option-cases (get_map payload "mission")) [
        | inl absent ↦ ground (arith, h, found, absent)
        | inr (mission, given) ↦
            let b = validate_mission_bounds fl mission r.state.orvd.max_mission_alt_m in
            ground (arith, h, found, given, (load_mission-Keeps mission b).kept env r g h)
      ]
    ];
  }

  after_telemetry-Keeps :
      (mid : String) (lat lon : F) (o : Result (Option (Fields F)))
      → Keeps Positive (after_telemetry fl mid lat lon o)
  unfolding after_telemetry publish_emergency_from_orvd
  after_telemetry-Keeps mid lat lon (err e) = record { kept = λ env r g h. h }
  after_telemetry-Keeps mid lat lon (ok resp) = record {
    kept = λ env r g h.
        let logged =
          (journal "ORVD_ZONE_VIOLATION"
            (fields (("mission_id", str mid) ∷ ("reason", str (text_of resp "reason")) ∷ [])) env
            r).1 in
        ground (
          arith,
          h,
          (report_orvd_incident-Keeps mid "zone_violation" "critical" lat lon).kept env logged g h,
        );
  }

  pub send_telemetry-Keeps : (nav : Fields F) → Keeps Positive (run_orvd_send_telemetry fl nav)
  unfolding run_orvd_send_telemetry
  send_telemetry-Keeps nav = record {
    kept = λ env r g h.
        let lat = get_float fl nav "lat" in
        let lon = get_float fl nav "lon" in
        let p = telemetry_payload r.state.orvd.drone_id lat lon (get_float fl nav "alt_m") in
        let asked = call_orvd "send_telemetry" p env r in
        let k = (call_orvd-Keeps "send_telemetry" p).kept env r g h in
        ground (
          arith,
          h,
          (after_telemetry-Keeps r.state.orvd_mission_id lat lon asked.0).kept env asked.1 g k,
        );
  }

  send_known-Keeps : (nav : Option (Fields F)) → Keeps Positive (send_known fl nav)
  send_known-Keeps none = Keeps-pure tt
  send_known-Keeps (some nav) = send_telemetry-Keeps nav

  takeoff_granted-Keeps : (details : Fields F) → Keeps Positive (takeoff_granted fl details)
  unfolding takeoff_granted
  takeoff_granted-Keeps details = record {
    kept = λ env r g h.
        let begun : Run F (Limiter F) = record r {
          state = record r.state {
            orvd_takeoff_authorized = true;
            orvd_phase = takeoff_authorized;
          };
        } in
        (send_known-Keeps r.state.last_nav).kept env
          (journal "ORVD_TAKEOFF_AUTHORIZED" details env begun).1 g h;
  }

  after_request-Keeps :
      (mid : String) (o : Result (Option (Fields F)))
      → Keeps Positive (after_request_takeoff fl mid o)
  unfolding after_request_takeoff
  after_request-Keeps mid (err e) = record { kept = λ env r g h. h }
  after_request-Keeps mid (ok resp) = record {
    kept = λ env r g h.
        ground (arith, h, (takeoff_granted-Keeps (only "mission_id" (str mid))).kept env r g h);
  }

  pub request_takeoff-Keeps : (mid : String) → Keeps Positive (run_orvd_request_takeoff fl mid)
  unfolding run_orvd_request_takeoff
  request_takeoff-Keeps mid = record {
    kept = λ env r g h.
        let stub : Fields F = fields (("mission_id", str mid) ∷ ("stub", bool true) ∷ []) in
        let timed = date_time_now env r in
        let p = takeoff_payload fl r.state.orvd.drone_id mid timed.0 in
        let asked = call_orvd "request_takeoff" p env timed.1 in
        let k = (call_orvd-Keeps "request_takeoff" p).kept env timed.1 g h in
        ground (
          arith,
          h,
          (takeoff_granted-Keeps stub).kept env r g h,
          (after_request-Keeps mid asked.0).kept env asked.1 g k,
        );
  }

  pub after_complete-Keeps :
      (mid : String) (o : Result (Option (Fields F))) → Keeps Positive (after_complete fl mid o)
  unfolding after_complete
  after_complete-Keeps mid (err e) = record { kept = λ env r g h. h }
  after_complete-Keeps mid (ok resp) = record { kept = λ env r g h. ground (arith, h) }
