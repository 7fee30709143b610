-- ===== src/Emergency/Departure.antt =====
-- droneport_client.go: when the preflight at the drone port succeeds.
use drones.Common.{
  String, Bool, true, false, ◌≡◌, refl, ap, ◌∙◌, subst, ◌⊎◌, inl, inr, Option, [], ◌∷◌, arith,
  Bool-cases, ◌==◌, eq_iff, is_empty, if◌then◌else◌,
}
use drones.Message.{Fields, fields, only, str, float64}
use drones.Bus.{Result, ok, err, Env, Run, M, modify, ◌>>=◌, ◌>>◌}
use drones.Bus.Keeps.{Rely, Keeps}
use drones.Floats.{Floats}
use drones.Emergency.State.{
  Phase, charging, not_registered, ready, departed, journal, set_droneport_phase, is_disabled,
  DroneportConfig, Emergency,
}
use drones.Emergency.Session.{
  Granted, granted, denied, Charge, is_ready, timed_out, still_charging, run_takeoff,
  is_drone_ready, run_landing, check_charge_ready,
}
use drones.Emergency.Steady.{
  Uses, journal-Keeps, phase-Keeps, run_landing-Keeps, is_drone_ready-Keeps,
  check_charge_ready-Keeps,
}
use drones.Emergency.Preflight.{
  Preflight, preflight_ok, is_departed, is_charging, begin_session, refuse, take_off, after_charge,
  await_charge, after_run_landing, after_first_look, preflight_at_port, run_preflight,
}
use drones.Emergency.Grant.{Permitted, Allowed, run_takeoff-granted, after_run_takeoff_sound}

is_departed_sound : (p : Phase) → is_departed p ≡ true → p ≡ departed
is_departed_sound departed e = refl
is_departed_sound _ e = cc

module _ {F : Type 0} (env : Env F (Emergency F)) (c : DroneportConfig F) (g : Rely (Uses c) env)
    (named : is_empty c.topic ≡ false) where
  -- A success of an action rests on a permission.
  record Sound (mid : String) (m : M F (Emergency F) (Preflight F)) : Type 0 where
    pub sound :
        (r : Run F (Emergency F)) (x : Option (Fields F))
        → Uses c r.state
        → (m env r).0 ≡ preflight_ok x
        → Allowed env c mid (m env r).1

  Sound-bind :
      {A : Type 0} {mid : String} (first : M F (Emergency F) A)
      (next : A → M F (Emergency F) (Preflight F))
      → Keeps (Uses c) first
      → ((a : A) → Sound mid (next a))
      → Sound mid (first >>= next)
  Sound-bind first next k l = record {
    sound = λ r x u. (l (first env r).0).sound (first env r).1 x (k.kept env r g u);
  }

  Sound-then :
      {A : Type 0} {mid : String} (first : M F (Emergency F) A)
      (next : M F (Emergency F) (Preflight F))
      → Keeps (Uses c) first
      → Sound mid next
      → Sound mid (first >> next)
  Sound-then first next k l = record {
    sound = λ r x u. l.sound (first env r).1 x (k.kept env r g u);
  }

  Sound-if :
      {mid : String} (test : Bool) (one other : M F (Emergency F) (Preflight F))
      → Sound mid one
      → Sound mid other
      → Sound mid (if test then one else other)
  Sound-if true one other k l = k
  Sound-if false one other k l = l

  refuse-Sound :
      (mid event e : String) (details extra : Fields F) → Sound mid (refuse event e details extra)
  unfolding refuse
  refuse-Sound mid event e details extra = record { sound = λ r x u h. cc }

  take_off-Sound : (mid : String) → Sound mid (take_off mid)
  unfolding take_off
  take_off-Sound mid = record {
    sound = λ r x u h.
        after_run_takeoff_sound env c mid (run_takeoff mid env r).0 (run_takeoff mid env r).1
          (λ y k.
            subst (λ d. Permitted env d mid (run_takeoff mid env r).1) u
              (run_takeoff-granted env mid r y (ap (λ d. is_empty d.topic) u ∙ named) k))
          x h;
  }

  after_charge-Sound : (mid : String) (o : Result Charge) → Sound mid (after_charge mid o)
  unfolding after_charge
  after_charge-Sound mid (err e) = refuse-Sound mid _ _ _ _
  after_charge-Sound mid (ok timed_out) = refuse-Sound mid _ _ _ _
  after_charge-Sound mid (ok still_charging) = record { sound = λ r x u h. cc }
  after_charge-Sound mid (ok is_ready) = take_off-Sound mid

  module _ (fl : Floats F) (scan_float : String → Option F) where
    await_charge-Sound : (mid : String) → Sound mid (await_charge fl scan_float mid)
    unfolding await_charge
    await_charge-Sound mid =
        Sound-bind (check_charge_ready fl scan_float) (after_charge mid)
          (check_charge_ready-Keeps c fl scan_float) (after_charge-Sound mid)

    after_run_landing-Sound :
        (mid : String) (batt : F) (g : Granted F)
        → Sound mid (after_run_landing fl scan_float mid batt g)
    unfolding after_run_landing
    after_run_landing-Sound mid batt (denied e resp) = refuse-Sound mid _ _ _ _
    after_run_landing-Sound mid batt (granted resp) =
        Sound-then
          (journal "DRONEPORT_LANDING_APPROVED"
            (fields (("mission_id", str mid) ∷ ("battery", float64 batt) ∷ [])))
          _ (journal-Keeps c _ _)
          (Sound-then (modify (set_droneport_phase charging)) _ (phase-Keeps c charging) (
            Sound-then (journal "DRONEPORT_CHARGING_WAIT" (only "mission_id" (str mid))) _
              (journal-Keeps c _ _) (await_charge-Sound mid)))

    after_first_look-Sound :
        (mid : String) (batt : F) (phase : Phase) (o : Result Bool)
        → Sound mid (after_first_look fl scan_float mid batt phase o)
    unfolding after_first_look
    after_first_look-Sound mid batt phase (err e) = refuse-Sound mid _ _ _ _
    after_first_look-Sound mid batt phase (ok true) =
        Sound-then (modify (set_droneport_phase ready)) _ (phase-Keeps c ready) (take_off-Sound mid)
    after_first_look-Sound mid batt phase (ok false) =
        Sound-if (is_charging phase) _ _ (await_charge-Sound mid) (
          Sound-then (modify (set_droneport_phase not_registered)) _ (phase-Keeps c not_registered)
            (Sound-bind (run_landing batt) _ (run_landing-Keeps c batt)
              (after_run_landing-Sound mid batt)))

    -- With a topic for the drone port, and no other goroutine that changes the configuration, the
    -- preflight succeeds only when the component is told to pretend, when the drone has departed for this
    -- very mission already, or when the drone port is asked for the take-off of this mission and allows
    -- it. In the last case nothing but one log entry comes after the request, and the drone counts as
    -- departed.
    pub run_preflight-ok :
        (mid : String) (batt : F) (r : Run F (Emergency F)) (x : Option (Fields F))
        → Uses c r.state
        → (run_preflight fl scan_float mid batt env r).0 ≡ preflight_ok x
        → (r.state.droneport.mock_success ≡ true)
          ⊎ ((r.state.droneport_phase ≡ departed) × (r.state.droneport_last_mission_id ≡ mid))
          ⊎ Allowed env c mid (run_preflight fl scan_float mid batt env r).1
    unfolding run_preflight preflight_at_port
    run_preflight-ok mid batt r x u h =
        let set_up : is_empty r.state.droneport.topic ≡ false =
          ap (λ d. is_empty d.topic) u ∙ named in
        let in_use : is_disabled r.state.droneport ≡ false = ground (arith, set_up) in
        elim (Bool-cases r.state.droneport.mock_success) [
          | inl mock ↦ inl mock
          | inr real ↦ elim (Bool-cases (is_departed r.state.droneport_phase)) [
            | inl gone ↦ elim (Bool-cases (r.state.droneport_last_mission_id == mid)) [
              | inl same ↦ inr (
                  inl (
                    is_departed_sound r.state.droneport_phase gone,
                    ground (arith, same, eq_iff r.state.droneport_last_mission_id mid),
                  ))
              | inr different ↦ ground (arith, in_use, real, gone, different, h)
            ]
            | inr here ↦
                let begun : Run F (Emergency F) = record r {
                  state = begin_session fl scan_float mid r.state;
                } in
                let listed = is_drone_ready fl scan_float env begun in
                let rest =
                  after_first_look fl scan_float mid batt r.state.droneport_phase listed.0 in
                let a =
                  (after_first_look-Sound mid batt r.state.droneport_phase listed.0).sound listed.1
                    x ((is_drone_ready-Keeps c fl scan_float).kept env begun g u)
                    (ground (arith, in_use, real, here, h)) in
                let same : (rest env listed.1).1 ≡ (run_preflight fl scan_float mid batt env r).1 =
                  ground (arith, in_use, real, here) in
                inr (inr (subst (Allowed env c mid) same a))
          ]
        ]
