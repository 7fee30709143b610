-- ===== src/Autopilot/Commands.antt =====
-- The messages of the autopilot: mission_load, cmd and get_state.
use drones.Common.{
  ℕ, String, Bool, true, false, Option, none, some, [], ◌∷◌, if◌then◌else◌, ◌&&◌, ◌||◌, not, eqb,
}
use drones.Message.{
  Fields, Value, Items, nil, cons, ℤ, pos, negsuc, null, int, empty, fields, str, bool, obj, get,
  only, get_string, get_map, get_items,
}
use drones.Bus.{M, pure, gets, modify, now, ◌>>=◌, ◌>>◌}
use drones.Floats.{Floats}
use drones.Component.{is_trusted_sender}
use drones.Autopilot.State.{
  State, mission_loaded, executing, state_text, rank, is_pre_flight, is_executing, is_paused,
  Command, start, abort, stop, kover, command_text, parse_command, CommandTransition,
  command_transitions, Autopilot, mission_id, len, normalize_steps, journal,
}
use drones.Autopilot.Actuators.{safe_actuator_stop}
use drones.Autopilot.Preflight.{step_pre_flight}

abbrev pub is_start : Command → Bool
is_start start = true
is_start _ = false

abbrev is_kover : Command → Bool
is_kover kover = true
is_kover _ = false

abbrev pub is_abort : Command → Bool
is_abort abort = true
is_abort _ = false

abbrev pub is_stop : Command → Bool
is_stop stop = true
is_stop _ = false

-- transition.AllowedFrom != nil, and the state is not in it
abbrev pub is_forbidden : Option (State → Bool) → State → Bool
is_forbidden none s = false
is_forbidden (some allowed) s = not (allowed s)

abbrev pub next_or : Option State → State → State
next_or none s = s
next_or (some t) s = t

module _ {F : Type 0} where
  abbrev pub cmd_error : String → Fields F
  cmd_error e = fields (("ok", bool false) ∷ ("error", str e) ∷ [])

  abbrev pub state_reply : State → Fields F
  state_reply s = fields (("ok", bool true) ∷ ("state", str (state_text s)) ∷ [])

  abbrev pub first_index : Items F → ℤ
  first_index nil = negsuc 0
  first_index (cons v vs) = pos 0

  abbrev pub load : Fields F → Autopilot F → Autopilot F
  load mission a = record a {
    mission = some mission;
    current_step_index = first_index (normalize_steps (get mission "steps"));
    state = mission_loaded;
  }

  unfoldable pub handle_mission_load : Fields F → M F (Autopilot F) (Option (Fields F))
  handle_mission_load message =
      if not (is_trusted_sender message "security_monitor")
      then pure none
      else elim (get_map message "payload") [
        | none ↦ pure (some (cmd_error "invalid_mission"))
        | some payload ↦ elim (get_map payload "mission") [
          | none ↦ pure (some (cmd_error "invalid_mission"))
          | some mission ↦ do
            modify (load mission)
            a ← gets (λ a. a)
            journal "AUTOPILOT_MISSION_LOADED" (
                fields (
                  ("mission_id", str (get_string mission "mission_id"))
                  ∷ ("state", str (state_text a.state))
                  ∷ []))
            b ← gets (λ b. b)
            pure (some (state_reply b.state))
        ]
      ]

  -- transition.RequireMission && a.mission == nil
  abbrev pub lacks_mission : Bool → Option (Fields F) → Bool
  lacks_mission true none = true
  lacks_mission _ _ = false

  -- the writes of a transition
  unfoldable pub apply_transition : CommandTransition → Autopilot F → Autopilot F
  apply_transition t a = record a {
    mission = if t.clear_mission then none else a.mission;
    current_step_index = if t.clear_mission then pos 0 else a.current_step_index;
    kover_active =
        if t.activate_kover then true else if t.disable_kover then false else a.kover_active;
    state = next_or t.next_state (
        if t.activate_kover && not (is_executing a.state) && not (is_paused a.state)
        then executing
        else a.state);
  }

module _ {F : Type 0} (fl : Floats F) where
  -- if cmd == "START" { a.lastError = ""; a.preFlightStartedAt = time.Now() }
  unfoldable pub note_start : Command → M F (Autopilot F) (Unit {0})
  note_start cmd =
      if not (is_start cmd)
      then pure tt
      else do t ← now; modify λ a. record a { last_error = ""; pre_flight_started_at = some t }

  abbrev old_state_fields : State → Fields F
  old_state_fields s = only "old_state" (str (state_text s))

  -- what handleCmd does to the outside after its critical section
  unfoldable pub effects : Command → State → State → M F (Autopilot F) (Unit {0})
  effects cmd old_state new_state = do
    if is_kover cmd then journal "AUTOPILOT_KOVER_ACTIVE" empty else pure tt
    if is_abort cmd || is_stop cmd then safe_actuator_stop fl else pure tt
    if is_abort cmd then journal "AUTOPILOT_ABORTED" (old_state_fields old_state) else pure tt
    if is_stop cmd then journal "AUTOPILOT_EMERGENCY_STOP" (old_state_fields old_state) else pure tt
    if eqb (rank old_state) (rank new_state)
        then pure tt
        else journal "AUTOPILOT_STATE_CHANGE" (
            fields (
              ("old_state", str (state_text old_state))
              ∷ ("new_state", str (state_text new_state))
              ∷ ("command", str (command_text cmd))
              ∷ []))

  -- the first preflight step of an accepted START
  unfoldable pub begin_preflight : Command → State → M F (Autopilot F) (Unit {0})
  begin_preflight cmd new_state =
      if is_start cmd && is_pre_flight new_state
      then (do
        mid ← gets (λ a. mission_id a.mission)
        journal "AUTOPILOT_START_ACCEPTED"
            (fields (("mission_id", str mid) ∷ ("state", str (state_text new_state)) ∷ []))
        step_pre_flight fl)
      else pure tt

  abbrev shown : Command → State → State → State
  shown cmd new_state now_state =
      if is_start cmd && is_pre_flight new_state then now_state else new_state

  unfoldable pub run_command : Command → M F (Autopilot F) (Option (Fields F))
  run_command cmd = do
    old ← gets (λ a. a)
    if lacks_mission (command_transitions cmd).require_mission old.mission
        then pure (some (cmd_error "no_mission"))
        else do
          note_start cmd
          if is_forbidden (command_transitions cmd).allowed_from old.state
              then pure (some (state_reply old.state))
              else do
                modify (apply_transition (command_transitions cmd))
                new_state ← gets (λ a. a.state)
                effects cmd old.state new_state
                begin_preflight cmd new_state
                now_state ← gets (λ a. a.state)
                pure (some (state_reply (shown cmd new_state now_state)))

  unfoldable pub handle_cmd : Fields F → M F (Autopilot F) (Option (Fields F))
  handle_cmd message =
      if not (is_trusted_sender message "security_monitor")
      then pure none
      else elim (get_map message "payload") [
        | none ↦ pure (some (cmd_error "invalid_payload"))
        | some payload ↦ elim (parse_command (get_string payload "command")) [
          | none ↦ pure (some (cmd_error "unknown_command"))
          | some cmd ↦ run_command cmd
        ]
      ]

  abbrev nav_value : Option (Fields F) → Value F
  nav_value none = null
  nav_value (some nav) = obj nav

  abbrev total_steps : Option (Fields F) → ℕ
  total_steps none = 0
  total_steps (some mission) = len (get_items mission "steps")

  unfoldable pub handle_get_state : Fields F → M F (Autopilot F) (Option (Fields F))
  handle_get_state message = do
    a ← gets (λ a. a)
    pure (
        some (
          fields (
            ("state", str (state_text a.state))
            ∷ ("mission_id", str (mission_id a.mission))
            ∷ ("current_step_index", int a.current_step_index)
            ∷ ("total_steps", int (pos (total_steps a.mission)))
            ∷ ("cargo_state", str a.cargo_state)
            ∷ ("last_nav_state", nav_value a.last_nav_state)
            ∷ ("last_error", str a.last_error)
            ∷ [])))
