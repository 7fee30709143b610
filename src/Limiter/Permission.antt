-- ===== src/Limiter/Permission.antt =====
-- opbd_client.go and limiter.go: on what a permission to take off rests, and what its revocation does.
use drones.Common.{
  String, true, false, ◌≡◌, refl, ap, ◌∙◌, ◌⊎◌, inl, inr, Bool-cases, ◌&&◌, Option, arith, ◌==◌,
  eq_iff, is_empty,
}
use drones.Message.{Fields}
use drones.Bus.{Result, ok, err, Env, Run, date_time_now}
use drones.Floats.{Floats}
use drones.Component.{is_trusted_sender}
use drones.Limiter.State.{Limiter}
use drones.Limiter.Orvd.{opbd_status, call_orvd, publish_emergency_from_orvd, withdraw_takeoff}
use drones.Limiter.Takeoff.{
  takeoff_payload, takeoff_granted, after_request_takeoff, run_orvd_request_takeoff,
}
use drones.Limiter.Authorization.{Replied}
use drones.Limiter.Handlers.{handle_revoke_takeoff}

module _ {F : Type 0} (fl : Floats F) (env : Env F (Limiter F)) where
  after_request-granted :
      (r : Run F (Limiter F)) (mid : String) (o : Result (Option (Fields F)))
      → (after_request_takeoff fl mid o env r).0.0 ≡ true
      → (resp : Option (Fields F)) × (o ≡ ok resp) × (opbd_status resp ≡ "takeoff_authorized")
  unfolding after_request_takeoff takeoff_granted
  after_request-granted r mid (err e) h = cc
  after_request-granted r mid (ok resp) h =
      (resp, refl, ground (arith, eq_iff (opbd_status resp) "takeoff_authorized"))

  -- The authority answers "takeoff_authorized" to a request for the mission mid, made at r.
  abbrev pub Permits : String → Run F (Limiter F) → Type 0
  Permits mid r =
      Replied env (date_time_now env r).1 "request_takeoff"
        (takeoff_payload fl r.state.orvd.drone_id mid (date_time_now env r).0) "takeoff_authorized"

  -- With an authority configured and without the stub, the limiter grants a take-off only when it
  -- holds a permission and the mission is the one it loaded last, or the authority is asked and
  -- permits it now.
  pub run_orvd_request_takeoff-granted :
      (r : Run F (Limiter F)) (mid : String)
      → is_empty r.state.orvd.topic ≡ false
      → r.state.orvd.mock_success ≡ false
      → (run_orvd_request_takeoff fl mid env r).0.0 ≡ true
      → ((r.state.orvd_takeoff_authorized ≡ true) × (r.state.orvd_mission_id ≡ mid)) ⊎ Permits mid r
  unfolding run_orvd_request_takeoff
  run_orvd_request_takeoff-granted r mid configured real h =
      elim (Bool-cases (r.state.orvd_takeoff_authorized && r.state.orvd_mission_id == mid)) [
        | inl held ↦
            inl (ground (arith, held), ground (arith, held, eq_iff r.state.orvd_mission_id mid))
        | inr fresh_one ↦
            let p = takeoff_payload fl r.state.orvd.drone_id mid (date_time_now env r).0 in
            let asked = call_orvd "request_takeoff" p env (date_time_now env r).1 in
            let got =
              after_request-granted asked.1 mid asked.0
                (ground (arith, configured, real, fresh_one, h)) in
            inr (record { answer = got.0; arrived = got.1; says = got.2 })
      ]

  -- A revocation by the authority withdraws the permission, and changes nothing else.
  revoke-withdraws :
      (r : Run F (Limiter F)) (message : Fields F)
      → is_trusted_sender message "orvd" ≡ true
      → (handle_revoke_takeoff fl message env r).1.state ≡ withdraw_takeoff r.state
  unfolding handle_revoke_takeoff publish_emergency_from_orvd
  revoke-withdraws r message trusted = ground (arith, trusted)

  -- After the authority has revoked the permission, with an authority configured and without the
  -- stub, the limiter grants a take-off, for any mission, only when the authority is asked again and
  -- permits it.
  pub revoke-then-takeoff :
      (r : Run F (Limiter F)) (message : Fields F) (mid : String)
      → is_trusted_sender message "orvd" ≡ true
      → is_empty r.state.orvd.topic ≡ false
      → r.state.orvd.mock_success ≡ false
      → (run_orvd_request_takeoff fl mid env (handle_revoke_takeoff fl message env r).1).0.0 ≡ true
      → Permits mid (handle_revoke_takeoff fl message env r).1
  revoke-then-takeoff r message mid trusted configured real h =
      let after = (handle_revoke_takeoff fl message env r).1 in
      let gone = revoke-withdraws r message trusted in
      elim (run_orvd_request_takeoff-granted after mid
        (ap (λ l. is_empty l.orvd.topic) gone ∙ configured)
        (ap (λ l. l.orvd.mock_success) gone ∙ real) h) [
          | inl (held, same) ↦
              (let no_more = ap (λ l. l.orvd_takeoff_authorized) gone in
                ground (arith, held, no_more))
          | inr asked ↦ asked
        ]
