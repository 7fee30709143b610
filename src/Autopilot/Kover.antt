-- ===== src/Autopilot/Kover.antt =====
-- What the commands do to the state, and where KOVER, which lands the drone in place, leads.
use drones.Common.{true, false, not, ◌≡◌, some, arith, if◌then◌else◌}
use drones.Message.{Fields}
use drones.Bus.{Env, Run}
use drones.Floats.{Floats}
use drones.Autopilot.State.{
  State, idle, executing, paused, aborted, emergency_stop, is_pre_flight, Command, start, pause,
  resume, abort, reset, stop, kover, Autopilot, get_float, command_transitions,
}
use drones.Autopilot.Actuators.{send_motors_target, send_cargo, safe_actuator_stop}
use drones.Autopilot.Control.{do_kover, step_in_air, step_control}
use drones.Autopilot.Commands.{
  apply_transition, note_start, effects, begin_preflight, run_command, is_start,
}

-- The parts of the state that sending messages leaves alone: all but the cargo state.
pub record Frame {F : Type 0} (a b : Autopilot F) : Type 0 where
  pub state : a.state ≡ b.state
  pub mission : a.mission ≡ b.mission
  pub index : a.current_step_index ≡ b.current_step_index
  pub kover : a.kover_active ≡ b.kover_active
  pub nav : a.last_nav_state ≡ b.last_nav_state
  pub started : a.pre_flight_started_at ≡ b.pre_flight_started_at
  pub error : a.last_error ≡ b.last_error

-- The state that a command other than START leads to.
abbrev pub moved : Command → State → State
moved pause executing = paused
moved resume paused = executing
moved abort s = aborted
moved reset s = idle
moved stop s = emergency_stop
moved kover paused = paused
moved kover s = executing
moved cmd s = s

module _ {F : Type 0} (fl : Floats F) (env : Env F (Autopilot F)) where
  safe_actuator_stop-Frame :
      (r : Run F (Autopilot F)) → Frame (safe_actuator_stop fl env r).1.state r.state
  unfolding safe_actuator_stop
  safe_actuator_stop-Frame r = ground arith

  effects-state :
      (cmd : Command) (old new : State) (r : Run F (Autopilot F))
      → (effects fl cmd old new env r).1.state.state ≡ r.state.state
  unfolding effects
  effects-state start old new r = ground arith
  effects-state pause old new r = ground arith
  effects-state resume old new r = ground arith
  effects-state abort old new r = ground (arith, safe_actuator_stop-Frame r)
  effects-state reset old new r = ground arith
  effects-state stop old new r = ground (arith, safe_actuator_stop-Frame r)
  effects-state kover old new r = ground arith

  abbrev transitioned : Command → Run F (Autopilot F) → Run F (Autopilot F)
  transitioned cmd r = record r { state = apply_transition (command_transitions cmd) r.state }

  -- For every command but START, the state that the command leaves is the one that the
  -- table `moved` gives for the state before it, whatever the broker answers: the messages
  -- sent on the way change nothing. PAUSE and RESUME act in one state each, ABORT, RESET and
  -- EMERGENCY_STOP act in every state, and KOVER leads from every state but PAUSED to
  -- EXECUTING.
  pub run_command-moves :
      (cmd : Command) (r : Run F (Autopilot F))
      → is_start cmd ≡ false
      → (run_command fl cmd env r).1.state.state ≡ moved cmd r.state.state
  unfolding run_command apply_transition note_start begin_preflight
  run_command-moves start r h = cc
  run_command-moves pause r h = ground (
    arith,
    effects-state pause r.state.state (apply_transition (command_transitions pause) r.state).state
        (transitioned pause r),
  )
  run_command-moves resume r h = ground (
    arith,
    effects-state resume r.state.state (apply_transition (command_transitions resume) r.state).state
        (transitioned resume r),
  )
  run_command-moves abort r h = ground (
    arith,
    effects-state abort r.state.state (apply_transition (command_transitions abort) r.state).state
        (transitioned abort r),
  )
  run_command-moves reset r h = ground (
    arith,
    effects-state reset r.state.state (apply_transition (command_transitions reset) r.state).state
        (transitioned reset r),
  )
  run_command-moves stop r h = ground (
    arith,
    effects-state stop r.state.state (apply_transition (command_transitions stop) r.state).state
        (transitioned stop r),
  )
  run_command-moves kover r h = ground (
    arith,
    effects-state kover r.state.state (apply_transition (command_transitions kover) r.state).state
        (transitioned kover r),
  )

-- While a drone that is not in its preflight has KOVER active and knows where it is, a control step
-- keeps it descending until the altitude is at most half a metre; then KOVER is over and
-- the drone PAUSED. The mission and the index of its step stay as they were.
pub step_control-lands :
    {F : Type 0} (fl : Floats F) (env : Env F (Autopilot F)) (r : Run F (Autopilot F))
    {nav : Fields F}
    → r.state.kover_active ≡ true
    → r.state.last_nav_state ≡ some nav
    → is_pre_flight r.state.state ≡ false
    → let a = (step_control fl env r).1.state in
      let landed = fl.le (get_float fl nav "alt_m") (fl.dec 5 1) in
      (a.state ≡ (if landed then paused else r.state.state))
      × (a.kover_active ≡ not landed)
      × (a.mission ≡ r.state.mission)
      × (a.current_step_index ≡ r.state.current_step_index)
unfolding step_control step_in_air do_kover send_motors_target send_cargo
step_control-lands fl env r {nav} k n p = ground arith
