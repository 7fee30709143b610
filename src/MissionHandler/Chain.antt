-- ===== src/MissionHandler/Chain.antt =====
-- mission_handler.go: the chain from the mission handler over the limiter to the autopilot.
use drones.Common.{
  String, true, false, ◌≡◌, refl, inl, inr, Option, none, some, arith, Bool-cases, Option-cases,
}
use drones.Message.{Fields, get_map, only, str}
use drones.Bus.{Result, ok, err, Env, Run}
use drones.Floats.{Floats}
use drones.Component.{is_trusted_sender}
use drones.MissionHandler.State.{MissionHandler, validate_mission}
use drones.MissionHandler.Handlers.{
  journal, fail, accepted, failed, is_refusal, mission_id, after_autopilot, mission_load,
  send_to_autopilot, after_limiter, load_valid, check_parsed, parse_mission, with_valid,
  handle_load_mission,
}

module _ {F : Type 0} (env : Env F (MissionHandler F)) where
  -- The component under a topic is sent the mission at r, and does not refuse it.
  pub record Takes (topic : String) (m : Fields F) (r : Run F (MissionHandler F)) : Type 0 where
    pub answer : Option (Fields F)
    pub arrived : (mission_load topic m env r).0 ≡ ok answer
    pub not_refused : is_refusal answer ≡ false

  -- the run in which the mission is stored, and the one in which the limiter has accepted it
  abbrev pub stored : Fields F → Run F (MissionHandler F) → Run F (MissionHandler F)
  stored m r =
      (journal "MISSION_HANDLER_MISSION_RECEIVED" (only "mission_id" (str (mission_id m))) env
        (record r { state = record r.state { last_mission = some m; last_error = "" } })).1

  abbrev pub passed_limiter : Fields F → Run F (MissionHandler F) → Run F (MissionHandler F)
  passed_limiter m r =
      (journal "MISSION_HANDLER_MISSION_SENT_TO_LIMITER" (only "mission_id" (str (mission_id m)))
        env (mission_load (stored m r).state.limiter_topic m env (stored m r)).1).1

  after_autopilot-accepted :
      (mid : String) (o : Result (Option (Fields F))) (r : Run F (MissionHandler F))
      → (after_autopilot mid o env r).0 ≡ some accepted
      → (answer : Option (Fields F)) × (o ≡ ok answer) × (is_refusal answer ≡ false)
  unfolding after_autopilot fail
  after_autopilot-accepted mid (err e) r h = cc
  after_autopilot-accepted mid (ok none) r h = (none, refl, refl)
  after_autopilot-accepted mid (ok (some a)) r h = elim (Bool-cases (is_refusal (some a))) [
    | inl refused ↦ ground (arith, refused, h)
    | inr fine ↦ (some a, refl, fine)
  ]

  after_limiter-accepted :
      (m : Fields F) (o : Result (Option (Fields F))) (r : Run F (MissionHandler F))
      → (after_limiter m o env r).0 ≡ some accepted
      → (answer : Option (Fields F)) × (o ≡ ok answer)
        × (is_refusal answer ≡ false)
        × ((send_to_autopilot m env
              (journal "MISSION_HANDLER_MISSION_SENT_TO_LIMITER"
                (only "mission_id" (str (mission_id m)))
                env
                r).1).0
            ≡ some accepted)
  unfolding after_limiter fail
  after_limiter-accepted m (err e) r h = cc
  after_limiter-accepted m (ok none) r h = (none, refl, refl, h)
  after_limiter-accepted m (ok (some a)) r h = elim (Bool-cases (is_refusal (some a))) [
    | inl refused ↦ ground (arith, refused, h)
    | inr fine ↦ (some a, refl, fine, ground (arith, fine, h))
  ]

  load_valid-accepted :
      (m : Fields F) (r : Run F (MissionHandler F))
      → (load_valid m env r).0 ≡ some accepted
      → Takes (stored m r).state.limiter_topic m (stored m r)
        × Takes (passed_limiter m r).state.autopilot_topic m (passed_limiter m r)
  unfolding load_valid send_to_autopilot
  load_valid-accepted m r h =
      let asked = mission_load (stored m r).state.limiter_topic m env (stored m r) in
      let first = after_limiter-accepted m asked.0 asked.1 h in
      let p = passed_limiter m r in
      let flown = mission_load p.state.autopilot_topic m env p in
      let second = after_autopilot-accepted (mission_id m) flown.0 flown.1 first.3 in
      (
        record { answer = first.0; arrived = first.1; not_refused = first.2 },
        record { answer = second.0; arrived = second.1; not_refused = second.2 },
      )

  -- If the answer is a failure, its text is the error that the component keeps.
  abbrev Reported : Option (Fields F) × Run F (MissionHandler F) → Type 0
  Reported p = (e : String) → p.0 ≡ some (failed e) → p.1.state.last_error ≡ e

  after_autopilot-Reported :
      (mid : String) (o : Result (Option (Fields F))) (r : Run F (MissionHandler F))
      → Reported (after_autopilot mid o env r)
  unfolding after_autopilot fail
  after_autopilot-Reported mid (err e) r x h = cc
  after_autopilot-Reported mid (ok none) r x h = cc
  after_autopilot-Reported mid (ok (some a)) r x h = ground (arith, h)

  send_to_autopilot-Reported :
      (m : Fields F) (r : Run F (MissionHandler F)) → Reported (send_to_autopilot m env r)
  unfolding send_to_autopilot
  send_to_autopilot-Reported m r =
      let asked = mission_load r.state.autopilot_topic m env r in
      after_autopilot-Reported (mission_id m) asked.0 asked.1

  after_limiter-Reported :
      (m : Fields F) (o : Result (Option (Fields F))) (r : Run F (MissionHandler F))
      → Reported (after_limiter m o env r)
  unfolding after_limiter fail
  after_limiter-Reported m (err e) r x h = cc
  after_limiter-Reported m (ok none) r x h = send_to_autopilot-Reported m _ x h
  after_limiter-Reported m (ok (some a)) r x h =
      let next =
        send_to_autopilot-Reported m
          (journal "MISSION_HANDLER_MISSION_SENT_TO_LIMITER"
            (only "mission_id" (str (mission_id m))) env r).1
          x in
      ground (arith, h, next)

  load_valid-Reported :
      (m : Fields F) (r : Run F (MissionHandler F)) → Reported (load_valid m env r)
  unfolding load_valid
  load_valid-Reported m r =
      let asked = mission_load (stored m r).state.limiter_topic m env (stored m r) in
      after_limiter-Reported m asked.0 asked.1

  check_parsed-Reported :
      (o : Result (Fields F)) (r : Run F (MissionHandler F))
      → Reported (check_parsed load_valid o env r)
  unfolding check_parsed fail
  check_parsed-Reported (err e) r x h = cc
  check_parsed-Reported (ok m) r x h =
      let next = load_valid-Reported m r x in ground (arith, h, next)

  check_parsed-accepted :
      (o : Result (Fields F)) (r : Run F (MissionHandler F))
      → (check_parsed load_valid o env r).0 ≡ some accepted
      → (m : Fields F) × (o ≡ ok m)
        × (validate_mission m ≡ none)
        × ((load_valid m env r).0 ≡ some accepted)
  unfolding check_parsed fail
  check_parsed-accepted (err e) r h = cc
  check_parsed-accepted (ok m) r h = elim (Option-cases (validate_mission m)) [
    | inl valid ↦ (m, refl, valid, ground (arith, valid, h))
    | inr (e, wrong) ↦ ground (arith, wrong, h)
  ]

  module _ (fl : Floats F) (parse_float : String → Option F) (message : Fields F)
      (r : Run F (MissionHandler F)) where
    -- what parseMission makes of a payload
    abbrev pub parsed : Fields F → Result (Fields F) × Run F (MissionHandler F)
    parsed payload = parse_mission fl parse_float payload env r

    -- The mission of the message has gone all the way.
    pub record Delivered : Type 0 where
      pub trusted : is_trusted_sender message "security_monitor" ≡ true
      pub payload : Fields F
      pub has_payload : get_map message "payload" ≡ some payload
      pub mission : Fields F
      pub reads : (parsed payload).0 ≡ ok mission
      pub valid : validate_mission mission ≡ none
      pub limiter_takes :
          Takes
            (stored mission (parsed payload).1).state.limiter_topic
            mission
            (stored mission (parsed payload).1)
      pub autopilot_takes :
          Takes
            (passed_limiter mission (parsed payload).1).state.autopilot_topic
            mission
            (passed_limiter mission (parsed payload).1)

    -- The mission handler accepts a message only when the security monitor sent it and its mission is
    -- read and valid, and after the limiter has answered the mission without a refusal, and after
    -- that the autopilot has.
    pub handle_load_mission-Delivered :
        (handle_load_mission fl parse_float message env r).0 ≡ some accepted → Delivered
    unfolding handle_load_mission with_valid fail
    handle_load_mission-Delivered h =
        elim (Bool-cases (is_trusted_sender message "security_monitor")) [
          | inr stranger ↦ ground (arith, stranger, h)
          | inl trusted ↦ elim (Option-cases (get_map message "payload")) [
            | inl empty_handed ↦ ground (arith, trusted, empty_handed, h)
            | inr (payload, found) ↦
                let checked =
                  check_parsed-accepted (parsed payload).0 (parsed payload).1
                    (ground (arith, trusted, found, h)) in
                let chain = load_valid-accepted checked.0 (parsed payload).1 checked.3 in
                record {
                  trusted = trusted;
                  payload = payload;
                  has_payload = found;
                  mission = checked.0;
                  reads = checked.1;
                  valid = checked.2;
                  limiter_takes = chain.0;
                  autopilot_takes = chain.1;
                }
          ]
        ]

    -- Whatever the stage at which the load fails - the payload, its parsing, the validation, the
    -- limiter or the autopilot -, the error of the answer is the one that get_state then reports.
    pub handle_load_mission-error :
        (e : String)
        → (handle_load_mission fl parse_float message env r).0 ≡ some (failed e)
        → (handle_load_mission fl parse_float message env r).1.state.last_error ≡ e
    unfolding handle_load_mission with_valid fail
    handle_load_mission-error e h =
        elim (Bool-cases (is_trusted_sender message "security_monitor")) [
          | inr stranger ↦ ground (arith, stranger, h)
          | inl trusted ↦ elim (Option-cases (get_map message "payload")) [
            | inl empty_handed ↦ ground (arith, trusted, empty_handed, h)
            | inr (payload, found) ↦
                let next = check_parsed-Reported (parsed payload).0 (parsed payload).1 e in
                ground (arith, trusted, found, h, next)
          ]
        ]
