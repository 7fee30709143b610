-- ===== src/Autopilot/Journey.antt =====
-- The autopilot over any messages and rounds of its control loop.
use drones.Common.{◌&&◌, ◌≡◌, refl, inl, inr, Option-cases, List, [], ◌∷◌, arith}
use drones.Message.{fields, str, Fields, get_map, get_string, get, Items, nil, cons}
use drones.Bus.{Env, Run, M, pure, ◌>>◌}
use drones.Bus.Keeps.{Rely, Keeps, Keeps-then, Keeps-bind, Keeps-gets, Keeps-if, Keeps-pure}
use drones.Floats.{Floats}
use drones.Autopilot.State.{
  State, Autopilot, fresh, Command, command_transitions, start, pause, resume, abort, reset, stop,
  kover, parse_command, normalize_steps, is_pre_flight, mission_id, state_text,
}
use drones.Autopilot.Actuators.{send_motors_target, send_cargo, safe_actuator_stop, hold_position}
use drones.Autopilot.Control.{control_round, index_of}
use drones.Autopilot.Commands.{
  is_start, first_index, handle_mission_load, apply_transition, note_start, effects,
  begin_preflight, run_command, handle_cmd,
}
use drones.Autopilot.Rounds.{step_pre_flight-InRange, control_round-InRange}
use drones.Autopilot.Range.{journal-InRange, InRange}

-- What wakes the autopilot and may change its state.
pub data Input (F : Type 0) : Type 0 where
  mission_load cmd : Fields F → Input F
  round : Input F

module _ {F : Type 0} (fl : Floats F) where
  unfoldable pub react : Input F → M F (Autopilot F) (Unit {0})
  react (mission_load m) = do handle_mission_load m; pure tt
  react (cmd m) = do handle_cmd fl m; pure tt
  react round = control_round fl

  unfoldable pub journey : List (Input F) → M F (Autopilot F) (Unit {0})
  journey [] = pure tt
  journey (i ∷ is) = react i >> journey is

module _ {F : Type 0} (fl : Floats F) where
  first_index-bound : (v : Items F) → index_of (first_index v) ≡ 0
  first_index-bound nil = refl
  first_index-bound (cons v vs) = refl

  handle_mission_load-InRange : (m : Fields F) → Keeps InRange (handle_mission_load m)
  unfolding handle_mission_load
  handle_mission_load-InRange m = record {
    kept = λ env r g h. elim (Option-cases (get_map m "payload")) [
      | inl absent ↦ ground (arith, h, absent)
      | inr (payload, found) ↦ elim (Option-cases (get_map payload "mission")) [
        | inl absent ↦ ground (arith, h, found, absent)
        | inr (mission, given) ↦
            ground
              (arith, h, found, given, first_index-bound (normalize_steps (get mission "steps")))
      ]
    ];
  }

  safe_actuator_stop-InRange : Keeps InRange (safe_actuator_stop fl)
  unfolding safe_actuator_stop hold_position send_motors_target send_cargo
  safe_actuator_stop-InRange = record { kept = λ env r g h. ground (arith, h) }

  effects-InRange : (c : Command) (old new : State) → Keeps InRange (effects fl c old new)
  unfolding effects
  effects-InRange start old new = record { kept = λ env r g h. ground (arith, h) }
  effects-InRange pause old new = record { kept = λ env r g h. ground (arith, h) }
  effects-InRange resume old new = record { kept = λ env r g h. ground (arith, h) }
  effects-InRange abort old new = record {
    kept = λ env r g h. ground (arith, safe_actuator_stop-InRange.kept env r g h);
  }
  effects-InRange reset old new = record { kept = λ env r g h. ground (arith, h) }
  effects-InRange stop old new = record {
    kept = λ env r g h. ground (arith, safe_actuator_stop-InRange.kept env r g h);
  }
  effects-InRange kover old new = record { kept = λ env r g h. ground (arith, h) }

  note_start-InRange : (c : Command) → Keeps InRange (note_start fl c)
  unfolding note_start
  note_start-InRange c = record { kept = λ env r g h. ground (arith, h) }

  apply_transition-InRange :
      (c : Command) (a : Autopilot F)
      → InRange a
      → InRange (apply_transition (command_transitions c) a)
  unfolding apply_transition
  apply_transition-InRange start a h = record { bound = h.bound }
  apply_transition-InRange pause a h = record { bound = h.bound }
  apply_transition-InRange resume a h = record { bound = h.bound }
  apply_transition-InRange abort a h = record { bound = h.bound }
  apply_transition-InRange reset a h = record { bound = ground arith }
  apply_transition-InRange stop a h = record { bound = h.bound }
  apply_transition-InRange kover a h = record { bound = h.bound }

  begin_preflight-InRange : (c : Command) (new : State) → Keeps InRange (begin_preflight fl c new)
  unfolding begin_preflight
  begin_preflight-InRange c new =
      Keeps-if (is_start c && is_pre_flight new) _ _
        (λ e. Keeps-bind _ _ (Keeps-gets (λ a. mission_id a.mission)) λ mid.
          Keeps-then _ _
            (journal-InRange fl "AUTOPILOT_START_ACCEPTED"
              (fields (("mission_id", str mid) ∷ ("state", str (state_text new)) ∷ [])))
            (step_pre_flight-InRange fl))
        λ e. Keeps-pure tt

  run_command-InRange : (c : Command) → Keeps InRange (run_command fl c)
  unfolding run_command
  run_command-InRange c = record {
    kept = λ env r g h.
        let r1 = (note_start fl c env r).1 in
        let k1 = (note_start-InRange c).kept env r g h in
        let r2 = record r1 { state = apply_transition (command_transitions c) r1.state } in
        let k2 = apply_transition-InRange c r1.state k1 in
        let r3 = (effects fl c r.state.state r2.state.state env r2).1 in
        let k3 = (effects-InRange c r.state.state r2.state.state).kept env r2 g k2 in
        ground (arith, h, k1, (begin_preflight-InRange c r2.state.state).kept env r3 g k3);
  }

  handle_cmd-InRange : (m : Fields F) → Keeps InRange (handle_cmd fl m)
  unfolding handle_cmd
  handle_cmd-InRange m = record {
    kept = λ env r g h. elim (Option-cases (get_map m "payload")) [
      | inl absent ↦ ground (arith, h, absent)
      | inr (payload, found) ↦ elim (Option-cases (parse_command (get_string payload "command"))) [
        | inl absent ↦ ground (arith, h, found, absent)
        | inr (c, given) ↦ ground (arith, h, found, given, (run_command-InRange c).kept env r g h)
      ]
    ];
  }

  journey_keeps :
      (inputs : List (Input F)) (env : Env F (Autopilot F)) (r : Run F (Autopilot F))
      → Rely InRange env
      → InRange r.state
      → InRange (journey fl inputs env r).1.state
  unfolding journey react
  journey_keeps [] env r g h = h
  journey_keeps (mission_load m ∷ is) env r g h =
      journey_keeps is env (handle_mission_load m env r).1 g
        ((handle_mission_load-InRange m).kept env r g h)
  journey_keeps (cmd m ∷ is) env r g h =
      journey_keeps is env (handle_cmd fl m env r).1 g ((handle_cmd-InRange m).kept env r g h)
  journey_keeps (round ∷ is) env r g h =
      journey_keeps is env (control_round fl env r).1 g ((control_round-InRange fl).kept env r g h)

-- After any missions, commands and rounds of the control loop, from the start and whatever the broker and
-- the clock answer, the index of the step is at most the number of the loaded mission's steps, if
-- the other goroutines keep it so too.
pub journey-InRange :
    {F : Type 0} (fl : Floats F) (inputs : List (Input F)) (env : Env F (Autopilot F))
    (a : Autopilot F)
    → Rely InRange env
    → InRange (journey fl inputs env (record { state = fresh fl a; events = [] })).1.state
unfolding fresh
journey-InRange fl inputs env a g =
    journey_keeps fl inputs env (record { state = fresh fl a; events = [] }) g
      (record { bound = ground arith })
