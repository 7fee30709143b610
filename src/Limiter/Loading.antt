-- ===== src/Limiter/Loading.antt =====
-- limiter.go: when the mission of the limiter changes.
use drones.Common.{
  String, true, ◌≡◌, refl, ◌⊎◌, inl, inr, Bool-cases, Option-cases, Option, none, some, arith,
  is_empty,
}
use drones.Message.{Fields, str, only, get_string, get_map}
use drones.Bus.{Env, Run}
use drones.Bus.Keeps.{Rely}
use drones.Floats.{Floats}
use drones.Component.{is_trusted_sender}
use drones.Limiter.State.{Status, authorized, is_authorized, Limiter}
use drones.Limiter.Bounds.{validate_mission_bounds}
use drones.Limiter.Registration.{run_orvd_mission_load}
use drones.Limiter.Authorization.{Replied, after_mission, run_orvd_mission_load-authorized}
use drones.Limiter.Stable.{Stable, run_orvd_mission_load-Keeps}
use drones.Limiter.Handlers.{await_orvd, load_mission, handle_mission_load}

mission-Stable : {F : Type 0} (m : Option (Fields F)) → Stable (λ (l : Limiter F). l.mission ≡ m)
mission-Stable m = record { phased = λ p l h. h; permitted = λ b l h. h; registered = λ l h. h }

is_authorized_sound : (s : Status) → is_authorized s ≡ true → s ≡ authorized
is_authorized_sound authorized e = refl
is_authorized_sound _ e = cc

module _ {F : Type 0} (fl : Floats F) (env : Env F (Limiter F)) (r : Run F (Limiter F)) where
  -- The authority is asked about the mission m once the limiter awaits it.
  abbrev pub verdict_run : Fields F → (Status × String) × Run F (Limiter F)
  verdict_run m =
      run_orvd_mission_load fl m env
        (record r { state = await_orvd (get_string m "mission_id") r.state })

  -- The authority answered "authorized" to the identifier of m; or there is no authority, or the stub
  -- stands for it.
  abbrev pub Asked : Fields F → Type 0
  Asked m =
      (is_empty r.state.orvd.topic ≡ true)
      ⊎ (r.state.orvd.mock_success ≡ true)
      ⊎ Replied env
          (after_mission fl env m
            (record r { state = await_orvd (get_string m "mission_id") r.state }))
          "authorize_mission" (only "mission_id" (str (get_string m "mission_id"))) "authorized"

  granted-Asked : (m : Fields F) → (verdict_run m).0.0 ≡ authorized → Asked m
  granted-Asked m won = elim (Bool-cases (is_empty r.state.orvd.topic)) [
    | inl nobody ↦ inl nobody
    | inr configured ↦ elim (Bool-cases r.state.orvd.mock_success) [
      | inl stub ↦ inr (inl stub)
      | inr real ↦
          let all =
            run_orvd_mission_load-authorized fl env m
              (record r { state = await_orvd (get_string m "mission_id") r.state }) configured real
              won in
          inr (inr all.2)
    ]
  ]

  -- What a message must hold for m to be loaded.
  pub record Loaded (message m : Fields F) : Type 0 where
    pub trusted : is_trusted_sender message "security_monitor" ≡ true
    pub payload : Fields F
    pub has_payload : get_map message "payload" ≡ some payload
    pub has_mission : get_map payload "mission" ≡ some m
    pub in_bounds : validate_mission_bounds fl m r.state.orvd.max_mission_alt_m ≡ none
    pub granted : (verdict_run m).0.0 ≡ authorized
    pub asked : Asked m

  module _ (old : Option (Fields F)) (g : Rely (λ l. l.mission ≡ old) env)
      (h : r.state.mission ≡ old) where
    load_mission-mission :
        (m : Fields F) (b : Option String)
        → ((load_mission fl m b env r).1.state.mission ≡ old)
          ⊎ ((b ≡ none)
              × ((verdict_run m).0.0 ≡ authorized)
              × ((load_mission fl m b env r).1.state.mission ≡ some m))
    unfolding load_mission
    load_mission-mission m (some e) = inl h
    load_mission-mission m none =
        let kept =
          (run_orvd_mission_load-Keeps (mission-Stable old) fl m).kept env
            (record r { state = await_orvd (get_string m "mission_id") r.state }) g h in
        elim (Bool-cases (is_authorized (verdict_run m).0.0)) [
          | inl authorised ↦
              inr (refl, is_authorized_sound _ authorised, ground (arith, authorised))
          | inr refused ↦ inl (ground (arith, refused, kept))
        ]

    -- While no other goroutine changes the mission of the limiter, a message leaves it as it is, or
    -- the message comes from the security monitor, its mission is in bounds, the dialogue with the
    -- authority ends in AUTHORIZED - where an authority is configured and the stub is not used, with
    -- its answer "authorized" to this mission's identifier -, and it is the mission of the limiter
    -- from then on.
    pub handle_mission_load-mission :
        (message : Fields F)
        → ((handle_mission_load fl message env r).1.state.mission ≡ old)
          ⊎ ((m : Fields F) × Loaded message m
              × ((handle_mission_load fl message env r).1.state.mission ≡ some m))
    unfolding handle_mission_load
    handle_mission_load-mission message =
        elim (Bool-cases (is_trusted_sender message "security_monitor")) [
          | inr stranger ↦ inl (ground (arith, stranger, h))
          | inl trusted ↦ elim (Option-cases (get_map message "payload")) [
            | inl empty_handed ↦ inl (ground (arith, trusted, empty_handed, h))
            | inr (payload, found) ↦ elim (Option-cases (get_map payload "mission")) [
              | inl nothing ↦ inl (ground (arith, trusted, found, nothing, h))
              | inr (m, there) ↦
                  let b = validate_mission_bounds fl m r.state.orvd.max_mission_alt_m in
                  elim (load_mission-mission m b) [
                    | inl same ↦ inl (ground (arith, trusted, found, there, same))
                    | inr (bounds, won, now_m) ↦ inr (
                      m,
                      record {
                        trusted = trusted;
                        payload = payload;
                        has_payload = found;
                        has_mission = there;
                        in_bounds = bounds;
                        granted = won;
                        asked = granted-Asked m won;
                      },
                      ground (arith, trusted, found, there, now_m),
                    )
                  ]
            ]
          ]
        ]
