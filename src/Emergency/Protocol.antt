-- ===== src/Emergency/Protocol.antt =====
-- emergency.go: the order of the emergency protocol, and where it stops.
use drones.Common.{
  String, Bool, true, false, ◌≡◌, refl, ◌⊎◌, inl, inr, Option, none, some, List, [], ◌∷◌,
  Option-cases,
}
use drones.Message.{Fields, fields, str, obj}
use drones.Bus.{Event, published, Env, Run}
use drones.Component.{proxy_message}
use drones.Emergency.State.{Emergency}
use drones.Emergency.Handlers.{
  refused, done, after_stage, isolation_start, land_order, close_order, protocol_started,
  set_active, run_protocol,
}

-- The broker does not take a message.
abbrev pub Fails : Option String → Type 0
Fails o = (e : String) × (o ≡ some e)

module _ {F : Type 0} (mid : String) (details : Option (Fields F)) (env : Env F (Emergency F))
    (r : Run F (Emergency F)) where
  abbrev order : String → String → Fields F → Event F
  order topic action payload =
      published r.state.proxy.security_monitor_topic
        (proxy_message "proxy_publish" r.state.proxy topic action payload)

  -- The events after the first, the second, the third and the fourth message of the protocol.
  abbrev pub isolating : List (Event F)
  isolating =
      published r.state.sec_monitor_topic (isolation_start r.state.component_id mid) ∷ r.events

  abbrev pub closing : List (Event F)
  closing = order r.state.cargo_topic "CLOSE" close_order ∷ isolating

  abbrev pub landing : List (Event F)
  landing = order r.state.motors_topic "LAND" land_order ∷ closing

  abbrev started : Fields F
  started = fields (
      ("event", str "EMERGENCY_PROTOCOL_STARTED")
      ∷ ("source", str "emergency")
      ∷ ("details", obj (protocol_started mid details))
      ∷ [])

  abbrev pub logging : List (Event F)
  logging = order r.state.journal_topic "LOG_EVENT" started ∷ landing

  abbrev answer : List (Event F) → String → String → Fields F → Option String
  answer events topic action payload =
      env.publish events r.state.proxy.security_monitor_topic
        (proxy_message "proxy_publish" r.state.proxy topic action payload)

  -- the broker's answers to the four messages
  abbrev pub isolated : Option String
  isolated =
      env.publish r.events r.state.sec_monitor_topic (isolation_start r.state.component_id mid)

  abbrev pub closed : Option String
  closed = answer isolating r.state.cargo_topic "CLOSE" close_order

  abbrev pub landed : Option String
  landed = answer closing r.state.motors_topic "LAND" land_order

  abbrev pub logged : Option String
  logged = answer landing r.state.journal_topic "LOG_EVENT" started

  -- The protocol ends with an answer, as active or not, after some events.
  abbrev pub Ends : Fields F → Bool → List (Event F) → Type 0
  Ends reply b events =
      run_protocol mid details env r
      ≡ (some reply, record { state = set_active b r.state; events = events })

  -- The protocol first has the security monitor isolate the drone, then the cargo bay closed, then the
  -- drone landed, then the journal informed. It stops at the first message that the broker does not
  -- take, answers which it was, and is not active then; if the broker takes all four it is active.
  pub run_protocol-stages :
      (Fails isolated × Ends (refused "isolation_start_failed") false isolating)
      ⊎ ((isolated ≡ none) × Fails closed × Ends (refused "cargo_close_failed") false closing)
      ⊎ ((isolated ≡ none)
          × (closed ≡ none)
          × Fails landed
          × Ends (refused "motors_land_failed") false landing)
      ⊎ ((isolated ≡ none)
          × (closed ≡ none)
          × (landed ≡ none)
          × Fails logged
          × Ends (refused "journal_log_failed") false logging)
      ⊎ ((isolated ≡ none)
          × (closed ≡ none)
          × (landed ≡ none)
          × (logged ≡ none)
          × Ends done true logging)
  unfolding run_protocol after_stage
  run_protocol-stages = elim (Option-cases isolated) [
    | inr (e1, f1) ↦ inl ((e1, f1), rw f1 refl)
    | inl t1 ↦ elim (Option-cases closed) [
      | inr (e2, f2) ↦ inr (inl (t1, (e2, f2), rw (t1, f2) refl))
      | inl t2 ↦ elim (Option-cases landed) [
        | inr (e3, f3) ↦ inr (inr (inl (t1, t2, (e3, f3), rw (t1, t2, f3) refl)))
        | inl t3 ↦ elim (Option-cases logged) [
          | inr (e4, f4) ↦ inr (inr (inr (inl (t1, t2, t3, (e4, f4), rw (t1, t2, t3, f4) refl))))
          | inl t4 ↦ inr (inr (inr (inr (t1, t2, t3, t4, rw (t1, t2, t3, t4) refl))))
        ]
      ]
    ]
  ]
