-- ===== src/Autopilot/Answers.antt =====
-- What was asked and answered where a preflight check clears.
use drones.Common.{
  String, Bool, true, false, ◌≡◌, refl, ◌⊎◌, inl, inr, ◌↔◌, Option, none, some, arith, eq_iff,
  Bool-cases, if◌then◌else◌, is_empty,
}
use drones.Message.{Fields, empty, only, str, string_of, bool_of}
use drones.Bus.{Result, ok, err, Env, Run, M, pure, ◌>>=◌}
use drones.Component.{proxy_request}
use drones.Autopilot.State.{Autopilot, get_in, mission_id}
use drones.Autopilot.Preflight.{
  Clearance, cleared, limiter_clearance, check_limiter_authorization, request_orvd_takeoff,
  request_droneport_takeoff, with_mission, is_takeoff_authorized, takeoff_clearance, has_departed,
  droneport_clearance,
}

module _ {F : Type 0} where
  -- The limiter clears a mission exactly when it reports AUTHORIZED for it: its mission and the
  -- loaded one are the same, or one of them has no name.
  pub limiter_clearance-cleared_iff :
      (mid : String) (pl : Option (Fields F))
      → (limiter_clearance mid (ok pl) ≡ cleared) ↔ (
          (string_of (get_in pl "orvd_status") ≡ "AUTHORIZED")
          × ((string_of (get_in pl "orvd_mission_id") ≡ mid)
              ⊎ (is_empty (string_of (get_in pl "orvd_mission_id")) ≡ true)
              ⊎ (is_empty mid ≡ true)))
  unfolding limiter_clearance
  limiter_clearance-cleared_iff mid pl = ground (
    arith,
    eq_iff (string_of (get_in pl "orvd_status")) "AUTHORIZED",
    eq_iff (string_of (get_in pl "orvd_mission_id")) mid,
  )

module _ {F : Type 0} (env : Env F (Autopilot F)) where
  -- A component was asked at r through the security monitor, and this was its answer.
  abbrev pub Answered :
      Run F (Autopilot F) → String → String → Fields F → Option (Fields F) → Type 0
  Answered r topic action payload answer =
      (proxy_request r.state.proxy topic action payload env r).0 ≡ ok answer

  -- the run after a component was asked for its state at r
  abbrev pub looked : Run F (Autopilot F) → String → Run F (Autopilot F)
  looked r topic = (proxy_request r.state.proxy topic "get_state" empty env r).1

  module _ (r : Run F (Autopilot F)) (m : Fields F) where
    -- The limiter says AUTHORIZED, of the same mission, or of one without a name on either side.
    pub record LimiterClears : Type 0 where
      pub answer : Option (Fields F)
      pub asked : Answered r r.state.limiter_topic "get_state" empty answer
      pub authorized : string_of (get_in answer "orvd_status") ≡ "AUTHORIZED"
      pub same_mission :
          (string_of (get_in answer "orvd_mission_id") ≡ mission_id (some m))
          ⊎ (is_empty (string_of (get_in answer "orvd_mission_id")) ≡ true)
          ⊎ (is_empty (mission_id (some m)) ≡ true)

    -- A first answer, to get_state, shows the clearance; or a second one, to the request for it,
    -- gives it. The proxy and the topic are those of the start.
    abbrev pub TwoStep :
        String → String → (Option (Fields F) → Type 0) → (Option (Fields F) → Type 0) → Type 0
    TwoStep topic action Shows Gives =
        ((seen : Option (Fields F)) × Answered r topic "get_state" empty seen × Shows seen)
        ⊎ ((given : Option (Fields F)) × ((proxy_request r.state.proxy topic action
                (only "mission_id" (str (mission_id (some m)))) env (looked r topic)).0
              ≡ ok given)
            × Gives given)

    -- The limiter reports the permission to take off, or says "ok" to the request for it.
    abbrev pub TakeoffClears : Type 0
    TakeoffClears =
        TwoStep r.state.limiter_topic "orvd_takeoff"
          (λ seen. bool_of (get_in seen "orvd_takeoff_authorized") ≡ true)
          (λ given. bool_of (get_in given "ok") ≡ true)

    -- The emergency component reports that the drone has left the port, or says "ok" to the request
    -- and does not let it wait.
    abbrev pub DroneportClears : Type 0
    DroneportClears =
        TwoStep r.state.emergency_topic "droneport_takeoff"
          (λ seen. string_of (get_in seen "droneport_phase") ≡ "DEPARTED")
          (λ given.
            (bool_of (get_in given "pending") ≡ false) × (bool_of (get_in given "ok") ≡ true))

  two_requests-cleared :
      (r : Run F (Autopilot F)) (m : Fields F) (topic action : String)
      (test : Result (Option (Fields F)) → Bool) (answer : Result (Option (Fields F)) → Clearance)
      (Shows Gives : Option (Fields F) → Type 0)
      → ((o : Result (Option (Fields F)))
          → test o ≡ true
          → (seen : Option (Fields F)) × (o ≡ ok seen) × Shows seen)
      → ((o : Result (Option (Fields F)))
          → answer o ≡ cleared
          → (given : Option (Fields F)) × (o ≡ ok given) × Gives given)
      → ((do
        st ← proxy_request r.state.proxy topic "get_state" empty
        if test st then pure cleared else do
          resp ←
              proxy_request r.state.proxy topic action
                (only "mission_id" (str (mission_id (some m))))
          pure (answer resp))
          env r).0
        ≡ cleared
      → TwoStep r m topic action Shows Gives
  two_requests-cleared r m topic action test answer Shows Gives shows gives e =
      let first = (proxy_request r.state.proxy topic "get_state" empty env r).0 in
      let second =
        (proxy_request r.state.proxy topic action (only "mission_id" (str (mission_id (some m))))
          env (looked r topic)).0 in
      elim (Bool-cases (test first)) [
        | inl shown ↦ inl (shows first shown)
        | inr hidden ↦ inr (gives second (ground (arith, hidden, e)))
      ]

  is_takeoff_authorized-true :
      (o : Result (Option (Fields F)))
      → is_takeoff_authorized o ≡ true
      → (seen : Option (Fields F)) × (o ≡ ok seen)
        × (bool_of (get_in seen "orvd_takeoff_authorized") ≡ true)
  is_takeoff_authorized-true (err x) e = cc
  is_takeoff_authorized-true (ok seen) e = (seen, refl, e)

  takeoff_clearance-cleared :
      (o : Result (Option (Fields F)))
      → takeoff_clearance o ≡ cleared
      → (given : Option (Fields F)) × (o ≡ ok given) × (bool_of (get_in given "ok") ≡ true)
  takeoff_clearance-cleared (err x) e = cc
  takeoff_clearance-cleared (ok given) e = (given, refl, ground (arith, e))

  has_departed-true :
      (o : Result (Option (Fields F)))
      → has_departed o ≡ true
      → (seen : Option (Fields F)) × (o ≡ ok seen)
        × (string_of (get_in seen "droneport_phase") ≡ "DEPARTED")
  has_departed-true (err x) e = cc
  has_departed-true (ok seen) e =
      (seen, refl, ground (arith, e, eq_iff (string_of (get_in seen "droneport_phase")) "DEPARTED"))

  droneport_clearance-cleared :
      (o : Result (Option (Fields F)))
      → droneport_clearance o ≡ cleared
      → (given : Option (Fields F)) × (o ≡ ok given)
        × ((bool_of (get_in given "pending") ≡ false) × (bool_of (get_in given "ok") ≡ true))
  droneport_clearance-cleared (err x) e = cc
  droneport_clearance-cleared (ok given) e = (given, refl, (ground (arith, e), ground (arith, e)))

  limiter_clearance-asked :
      (mid : String) (o : Result (Option (Fields F)))
      → limiter_clearance mid o ≡ cleared
      → (answer : Option (Fields F)) × (o ≡ ok answer)
        × (limiter_clearance mid (ok answer) ≡ cleared)
  unfolding limiter_clearance
  limiter_clearance-asked mid (err x) e = cc
  limiter_clearance-asked mid (ok answer) e = (answer, refl, e)

  with_mission-some :
      (o : Option (Fields F)) (check : Fields F → M F (Autopilot F) Clearance)
      (r : Run F (Autopilot F))
      → (with_mission o check env r).0 ≡ cleared
      → (m : Fields F) × (o ≡ some m) × ((check m env r).0 ≡ cleared)
  with_mission-some none check r e = cc
  with_mission-some (some m) check r e = (m, refl, e)

  module _ (r : Run F (Autopilot F)) where
    pub check_limiter_authorization-cleared :
        (check_limiter_authorization env r).0 ≡ cleared
        → (m : Fields F) × (r.state.mission ≡ some m) × LimiterClears r m
    unfolding check_limiter_authorization
    check_limiter_authorization-cleared e =
        let (m, loaded, said) = with_mission-some r.state.mission _ r e in
        let (answer, asked, clears) = limiter_clearance-asked (mission_id (some m)) _ said in
        let why = (limiter_clearance-cleared_iff (mission_id (some m)) answer).0 clears in
        (
          m,
          loaded,
          record { answer = answer; asked = asked; authorized = why.0; same_mission = why.1 },
        )

    pub request_orvd_takeoff-cleared :
        (request_orvd_takeoff env r).0 ≡ cleared
        → (m : Fields F) × (r.state.mission ≡ some m) × TakeoffClears r m
    unfolding request_orvd_takeoff
    request_orvd_takeoff-cleared e =
        let (m, loaded, said) = with_mission-some r.state.mission _ r e in
        (
          m,
          loaded,
          two_requests-cleared r m r.state.limiter_topic "orvd_takeoff" is_takeoff_authorized
              takeoff_clearance _ _ is_takeoff_authorized-true takeoff_clearance-cleared said,
        )

    pub request_droneport_takeoff-cleared :
        (request_droneport_takeoff env r).0 ≡ cleared
        → (m : Fields F) × (r.state.mission ≡ some m) × DroneportClears r m
    unfolding request_droneport_takeoff
    request_droneport_takeoff-cleared e =
        let (m, loaded, said) = with_mission-some r.state.mission _ r e in
        (
          m,
          loaded,
          two_requests-cleared r m r.state.emergency_topic "droneport_takeoff" has_departed
              droneport_clearance (λ seen. string_of (get_in seen "droneport_phase") ≡ "DEPARTED")
              (λ given.
                (bool_of (get_in given "pending") ≡ false) × (bool_of (get_in given "ok") ≡ true))
              has_departed-true droneport_clearance-cleared said,
        )

-- The mission that the autopilot has at r, with what is shown of it there.
abbrev pub Cleared :
    {F : Type 0} → (Run F (Autopilot F) → Fields F → Type 0) → Run F (Autopilot F) → Type 0
Cleared Clears r = (m : Fields _) × (r.state.mission ≡ some m) × Clears r m
