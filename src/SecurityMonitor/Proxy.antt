-- ===== src/SecurityMonitor/Proxy.antt =====
-- proxy_handlers.go: the requests that the monitor forwards.
use drones.Common.{
  String, true, false, not, ◌||◌, Option, none, some, [], ◌∷◌, is_empty, trim_space, if◌then◌else◌,
}
use drones.Message.{Fields, empty, fields, str, bool, obj, get_string, get_map}
use drones.Bus.{Result, ok, err, M, pure, gets, publish, request, ◌>>=◌, ◌>>◌}
use drones.SecurityMonitor.Policy.{get_str}
use drones.SecurityMonitor.State.{Monitor, component_id, record_sender_seen}
use drones.SecurityMonitor.PolicyStore.{allowed}

pub record Target (F : Type 0) : Type 0 where
  pub topic : String
  pub action : String
  pub payload : Fields F

module _ {F : Type 0} where
  abbrev or_empty : Option (Fields F) → Fields F
  or_empty none = empty
  or_empty (some m) = m

  -- extractTarget; the nil data of a missing target is not read by the callers
  unfoldable pub extract_target : Fields F → Target F
  extract_target payload = elim (get_map payload "target") [
    | none ↦ record { topic = ""; action = ""; payload = empty }
    | some target ↦ record {
      topic = trim_space (get_str target "topic");
      action = trim_space (get_str target "action");
      payload = or_empty (get_map payload "data");
    }
  ]

  -- sender, or "unknown"
  abbrev pub sender_of : Fields F → String
  sender_of message =
      if is_empty (get_string message "sender") then "unknown" else get_string message "sender"

  -- What the guards of the two proxy handlers answer: an error key, or the target.
  unfoldable pub check_target : Monitor → String → Option (Fields F) → Result (Target F)
  unfolding extract_target allowed
  check_target sm sender none = err "invalid_payload"
  check_target sm sender (some payload) =
      let target = extract_target payload in
      if is_empty target.topic || is_empty target.action
      then err "invalid_target"
      else if not (allowed sm sender target.topic target.action)
      then err "forbidden"
      else ok target

  -- the message that is forwarded, under the monitor's own name
  abbrev pub forwarded : Target F → Fields F
  forwarded target = fields (
      ("action", str target.action)
      ∷ ("sender", str component_id)
      ∷ ("payload", obj target.payload)
      ∷ [])

  abbrev request_reply : Target F → Result (Fields F) → Fields F
  request_reply target (err e) = fields (("error", str e) ∷ [])
  request_reply target (ok resp) = fields (
      ("target_topic", str target.topic)
      ∷ ("target_action", str target.action)
      ∷ ("target_response", obj resp)
      ∷ [])

  abbrev publish_reply : Option String → Fields F
  publish_reply (some e) = fields (("published", bool false) ∷ ("error", str e) ∷ [])
  publish_reply none = fields (("published", bool true) ∷ [])

  unfoldable pub forward_request : Result (Target F) → M F Monitor (Option (Fields F))
  forward_request (err e) = pure (some (fields (("error", str e) ∷ [])))
  forward_request (ok target) = do
    resp ← request target.topic (forwarded target)
    pure (some (request_reply target resp))

  unfoldable pub forward_publish : Result (Target F) → M F Monitor (Option (Fields F))
  forward_publish (err e) = pure (some (publish_reply (some e)))
  forward_publish (ok target) = do
    failure ← publish target.topic (forwarded target)
    pure (some (publish_reply failure))

  unfoldable pub handle_proxy_request : Fields F → M F Monitor (Option (Fields F))
  unfolding forward_request
  handle_proxy_request message = do
    record_sender_seen (sender_of message)
    sm ← gets (λ sm. sm)
    forward_request (check_target sm (sender_of message) (get_map message "payload"))

  unfoldable pub handle_proxy_publish : Fields F → M F Monitor (Option (Fields F))
  unfolding forward_publish
  handle_proxy_publish message = do
    record_sender_seen (sender_of message)
    sm ← gets (λ sm. sm)
    forward_publish (check_target sm (sender_of message) (get_map message "payload"))
