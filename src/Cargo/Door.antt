-- ===== src/Cargo/Door.antt =====
-- When the door moves, and what the journal hears of it.
use drones.Common.{true, false, ◌≡◌, none, List, [], ◌∷◌, arith, if◌then◌else◌}
use drones.Message.{Fields, fields, str}
use drones.Bus.{Event, published, clock_read, Env, Run}
use drones.Floats.{Floats}
use drones.Component.{is_trusted_sender, proxy_message}
use drones.Cargo.{same_state, State, closed, open_, state_text, Cargo, handle_open, handle_close}

-- The event that the cargo bay publishes when the door goes from one state to another.
abbrev pub change_event : {F : Type 0} → Cargo F → State → State → Event F
change_event c old new = published c.proxy.security_monitor_topic (
    proxy_message "proxy_publish" c.proxy c.journal_topic "LOG_EVENT" (
      fields (
        ("event", str "CARGO_STATE_CHANGED")
        ∷ ("source", str "cargo")
        ∷ (
          "details",
          drones.Message.obj (
              fields
                (("old_state", str (state_text old)) ∷ ("new_state", str (state_text new)) ∷ [])),
        )
        ∷ [])))

-- The events with the journal's message, if the door was in another state.
abbrev pub told : {F : Type 0} → Cargo F → State → List (Event F) → List (Event F)
told c new events = if same_state c.state new then events else change_event c c.state new ∷ events

module _ {F : Type 0} (fl : Floats F) (message : Fields F) (env : Env F (Cargo F))
    (r : Run F (Cargo F)) where
  -- OPEN and CLOSE from anyone but the security monitor change nothing and get no answer.
  pub untrusted_ignored :
      is_trusted_sender message "security_monitor" ≡ false
      → (handle_open fl message env r ≡ (none, r)) × (handle_close fl message env r ≡ (none, r))
  unfolding handle_open handle_close
  untrusted_ignored h = ground arith

  -- From the security monitor, OPEN opens the door and CLOSE closes it; the journal is told exactly
  -- when the door moves, with the old state and the new one.
  pub trusted_moves :
      is_trusted_sender message "security_monitor" ≡ true
      → ((handle_open fl message env r).1.state.state ≡ open_)
        × ((handle_close fl message env r).1.state.state ≡ closed)
        × ((handle_open fl message env r).1.events ≡ told r.state open_ (clock_read ∷ r.events))
        × ((handle_close fl message env r).1.events ≡ told r.state closed (clock_read ∷ r.events))
  unfolding handle_open handle_close
  trusted_moves h = ground arith
