-- ===== src/SecurityMonitor/Gateway.antt =====
-- What passes the monitor: the messages that the two proxy handlers forward.
use drones.Common.{
  sym, ap, ◌∙◌, String, true, false, ◌≡◌, ◌≢◌, refl, ◌⊎◌, inl, inr, Option, none, some, List, [],
  ◌∷◌, arith, eq_iff, is_empty,
}
use drones.Message.{Fields, get_map}
use drones.Bus.{Event, requested, published, clock_read, Env, Run, Result, ok, err}
use drones.SecurityMonitor.Policy.{PolicyKey, contains}
use drones.SecurityMonitor.State.{isolated, Monitor, record_sender_seen}
use drones.SecurityMonitor.Isolation.{emergency_policies}
use drones.SecurityMonitor.PolicyStore.{allowed}
use drones.SecurityMonitor.Proxy.{
  Target, check_target, forwarded, forward_request, forward_publish, sender_of,
  handle_proxy_request, handle_proxy_publish,
}
use drones.SecurityMonitor.Consistent.{IsConsistent, policies_of}

module _ {F : Type 0} where
  -- The messages among the events, the latest first.
  unfoldable pub sent : List (Event F) → List (Event F)
  sent [] = []
  sent (clock_read ∷ es) = sent es
  sent (requested t m ∷ es) = requested t m ∷ sent es
  sent (published t m ∷ es) = published t m ∷ sent es

  -- The policy that a message with such a target needs.
  abbrev pub key_for : Fields F → Target F → PolicyKey
  key_for message t = record { sender = sender_of message; topic = t.topic; action = t.action }

  -- One message, to a complete target that the policies name for the sender.
  pub record IsForward (sm : Monitor) (message : Fields F) (t : Target F) : Type 0 where
    pub complete : (is_empty t.topic ≡ false) × (is_empty t.action ≡ false)
    pub permitted : contains sm.policies (key_for message t) ≡ true

  check_target_sound :
      (sm : Monitor) (message : Fields F) (payload : Option (Fields F)) (t : Target F)
      → check_target sm (sender_of message) payload ≡ ok t
      → IsForward sm message t
  unfolding check_target allowed
  check_target_sound sm message none t e = cc
  check_target_sound sm message (some payload) t e = record {
    complete = ground arith;
    permitted = ground arith;
  }

  pub seen-policies :
      (sender : String) (env : Env F Monitor) (r : Run F Monitor)
      → ((record_sender_seen sender env r).1.state.policies ≡ r.state.policies)
        × (sent (record_sender_seen sender env r).1.events ≡ sent r.events)
  unfolding record_sender_seen sent
  seen-policies sender env r = ground arith

  -- handle_proxy_publish forwards nothing, or one message to a target that IsForward allows.
  abbrev pub Forwards :
      (String → Fields F → Event F) → Monitor → Fields F → List (Event F) → List (Event F) → Type 0
  Forwards event sm message before after =
      (sent after ≡ sent before)
      ⊎ ((t : Target F) × (sent after ≡ event t.topic (forwarded t) ∷ sent before)
          × IsForward sm message t)

  forward_publish-Forwards :
      (sm : Monitor) (message : Fields F) (c : Result (Target F)) (env : Env F Monitor)
      (r : Run F Monitor)
      → ((t : Target F) → c ≡ ok t → IsForward sm message t)
      → Forwards published sm message r.events (forward_publish c env r).1.events
  unfolding forward_publish sent
  forward_publish-Forwards sm message (err e) env r k = inl refl
  forward_publish-Forwards sm message (ok t) env r k = inr (t, refl, k t refl)

  forward_request-Forwards :
      (sm : Monitor) (message : Fields F) (c : Result (Target F)) (env : Env F Monitor)
      (r : Run F Monitor)
      → ((t : Target F) → c ≡ ok t → IsForward sm message t)
      → Forwards requested sm message r.events (forward_request c env r).1.events
  unfolding forward_request sent
  forward_request-Forwards sm message (err e) env r k = inl refl
  forward_request-Forwards sm message (ok t) env r k = inr (t, refl, k t refl)

  IsForward-policies :
      {sm sm' : Monitor} {message : Fields F} {t : Target F}
      → sm'.policies ≡ sm.policies
      → IsForward sm' message t
      → IsForward sm message t
  IsForward-policies e f = record { complete = f.complete; permitted = rw e at f.permitted }

module _ {F : Type 0} (message : Fields F) (env : Env F Monitor) (r : Run F Monitor) where
  -- A proxy_publish sends nothing, or exactly one message: under the monitor's own name, to a target
  -- whose topic and action are not empty and which the active policies name for the sender.
  pub handle_proxy_publish-Forwards :
      Forwards published r.state message r.events (handle_proxy_publish message env r).1.events
  unfolding handle_proxy_publish
  handle_proxy_publish-Forwards =
      let s = (record_sender_seen (sender_of message) env r).1 in
      let (same, quiet) = seen-policies (sender_of message) env r in
      rw (← quiet) (
        forward_publish-Forwards r.state message
          (check_target s.state (sender_of message) (get_map message "payload")) env s
          λ t e.
            IsForward-policies same
              (check_target_sound s.state message (get_map message "payload") t e))

  -- A proxy_request sends nothing, or exactly one request: under the monitor's own name, to a target
  -- whose topic and action are not empty and which the active policies name for the sender.
  pub handle_proxy_request-Forwards :
      Forwards requested r.state message r.events (handle_proxy_request message env r).1.events
  unfolding handle_proxy_request
  handle_proxy_request-Forwards =
      let s = (record_sender_seen (sender_of message) env r).1 in
      let (same, quiet) = seen-policies (sender_of message) env r in
      rw (← quiet) (
        forward_request-Forwards r.state message
          (check_target s.state (sender_of message) (get_map message "payload")) env s
          λ t e.
            IsForward-policies same
              (check_target_sound s.state message (get_map message "payload") t e))

emergency-sender :
    (sm : Monitor) (k : PolicyKey)
    → contains (emergency_policies sm) k ≡ true
    → k.sender ≡ "emergency"
unfolding contains
emergency-sender sm k h = ground (arith, eq_iff "emergency" k.sender)

silent :
    {F : Type 0} (event : String → Fields F → Event F) (sm : Monitor) (message : Fields F)
    (before after : List (Event F))
    → IsConsistent sm
    → sm.safety_state.mode ≡ isolated
    → sender_of message ≢ "emergency"
    → Forwards event sm message before after
    → sent after ≡ sent before
silent event sm message before after c i n (inl e) = e
silent event sm message before after c i n (inr (t, e, f)) = absurd (
    n (
      emergency-sender sm (key_for message t) (
        sym (
          c.active (key_for message t)
          ∙ ap (λ m. contains (policies_of sm m) (key_for message t)) i)
        ∙ f.permitted)))

-- In isolation nothing that a sender other than "emergency" asks for is sent, neither by
-- proxy_publish nor by proxy_request, if the monitor's invariant holds.
pub isolation_silences :
    {F : Type 0} (message : Fields F) (env : Env F Monitor) (r : Run F Monitor)
    → IsConsistent r.state
    → r.state.safety_state.mode ≡ isolated
    → sender_of message ≢ "emergency"
    → (sent (handle_proxy_publish message env r).1.events ≡ sent r.events)
      × (sent (handle_proxy_request message env r).1.events ≡ sent r.events)
isolation_silences message env r c i n = (
  silent published r.state message r.events _ c i n (handle_proxy_publish-Forwards message env r),
  silent requested r.state message r.events _ c i n (handle_proxy_request-Forwards message env r),
)
