-- ===== src/Autopilot/Halt.antt =====
-- What ABORT and EMERGENCY_STOP send to the motors and the cargo bay.
use drones.Common.{
  String, true, false, ◌||◌, ◌≡◌, sym, subst, inl, inr, Bool-cases, Option, none, some, List, ◌∷◌,
  arith, eqb,
}
use drones.Message.{Fields, empty}
use drones.Bus.{Event, published, Env, Run}
use drones.Floats.{Floats, lit}
use drones.Component.{proxy_message}
use drones.Autopilot.State.{
  Command, start, pause, resume, abort, reset, stop, kover, Autopilot, get_float, rank, State,
  aborted, emergency_stop,
}
use drones.Autopilot.Actuators.{
  target_fields, send_motors_target, send_cargo, hold_position, safe_actuator_stop,
}
use drones.Autopilot.Commands.{
  is_abort, is_stop, apply_transition, note_start, effects, begin_preflight, run_command,
}

-- The events of a run that went on from earlier ones.
pub data After {F : Type 0} (es : List (Event F)) : List (Event F) → Type 0 where
  here : After es es
  later : {e : Event F} {fs : List (Event F)} → After es fs → After es (e ∷ fs)

module _ {F : Type 0} (fl : Floats F) where
  -- An order that the autopilot sends through the security monitor.
  abbrev pub order : Autopilot F → String → String → Fields F → Event F
  order a topic action payload =
      published a.proxy.security_monitor_topic
        (proxy_message "proxy_publish" a.proxy topic action payload)

  -- The target at a place, with no speed and no drop.
  abbrev pub hold : Fields F → Fields F
  hold nav =
      target_fields fl (lit fl 0) (lit fl 0) (lit fl 0) (get_float fl nav "alt_m")
        (get_float fl nav "lat") (get_float fl nav "lon") (get_float fl nav "heading_deg") false

  -- Events, then a hold where the drone is, if that is known, and then the closing of the cargo bay.
  abbrev pub halted : Autopilot F → Option (Fields F) → List (Event F) → List (Event F)
  halted a none es = order a a.cargo_topic "CLOSE" empty ∷ es
  halted a (some nav) es =
      order a a.cargo_topic "CLOSE" empty ∷ order a a.motors_topic "SET_TARGET" (hold nav) ∷ es

module _ {F : Type 0} (fl : Floats F) (env : Env F (Autopilot F)) where
  safe_actuator_stop-halted :
      (r : Run F (Autopilot F))
      → (safe_actuator_stop fl env r).1.events ≡ halted fl r.state r.state.last_nav_state r.events
  unfolding safe_actuator_stop hold_position send_motors_target send_cargo
  safe_actuator_stop-halted r = ground arith

  at_once :
      (r : Run F (Autopilot F))
      → After
          (halted fl r.state r.state.last_nav_state r.events)
          (safe_actuator_stop fl env r).1.events
  at_once r = subst (After _) (sym (safe_actuator_stop-halted r)) here

  effects-After :
      (cmd : Command) (old new : State) (r : Run F (Autopilot F))
      → (is_abort cmd || is_stop cmd) ≡ true
      → After
          (halted fl r.state r.state.last_nav_state r.events)
          (effects fl cmd old new env r).1.events
  unfolding effects
  effects-After abort old new r h = elim (Bool-cases (eqb (rank old) (rank new))) [
    | inl same ↦ rw same (later (at_once r))
    | inr other ↦ rw other (later (later (at_once r)))
  ]
  effects-After stop old new r h = elim (Bool-cases (eqb (rank old) (rank new))) [
    | inl same ↦ rw same (later (at_once r))
    | inr other ↦ rw other (later (later (at_once r)))
  ]
  effects-After start old new r h = cc
  effects-After pause old new r h = cc
  effects-After resume old new r h = cc
  effects-After reset old new r h = cc
  effects-After kover old new r h = cc

  abbrev moved_run : Command → Run F (Autopilot F) → Run F (Autopilot F)
  moved_run cmd r = record r {
    state = apply_transition (drones.Autopilot.State.command_transitions cmd) r.state;
  }

  -- ABORT and EMERGENCY_STOP, in any state: the first messages that are sent are a hold at the last known
  -- position, if there is one, and the closing of the cargo bay, whatever the broker answers.
  pub run_command-halts :
      (cmd : Command) (r : Run F (Autopilot F))
      → (is_abort cmd || is_stop cmd) ≡ true
      → After
          (halted fl r.state r.state.last_nav_state r.events)
          (run_command fl cmd env r).1.events
  unfolding run_command apply_transition note_start begin_preflight
  run_command-halts abort r h = effects-After abort r.state.state aborted (moved_run abort r) h
  run_command-halts stop r h = effects-After stop r.state.state emergency_stop (moved_run stop r) h
  run_command-halts start r h = cc
  run_command-halts pause r h = cc
  run_command-halts resume r h = cc
  run_command-halts reset r h = cc
  run_command-halts kover r h = cc
