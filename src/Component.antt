-- ===== src/Component.antt =====
-- component/src: the base of every component (component.go), the client of the security monitor's
-- proxy (security_proxy.go), the audit log (audit_logger.go) and the control loop (loop.go).
pub mod Invariant
use drones.Common.{
  String, append, Bool, true, false, not, ◌&&◌, Option, none, some, List, [], ◌∷◌, ◌==◌, is_empty,
  if◌then◌else◌,
}
use drones.Message.{
  Fields, str, obj, arr, bool, Items, nil, cons, entry, empty, only, get_string, get_map, get_bool,
}
use drones.Bus.{Result, ok, err, M, pure, ◌>>=◌, ◌>>◌, publish, request, respond, create_response}
use drones.Floats.{Floats}

-- IsTrustedSender
abbrev pub is_trusted_sender : {F : Type 0} → Fields F → String → Bool
is_trusted_sender message expected =
    not (is_empty (get_string message "sender")) && get_string message "sender" == expected

-- ProxyClient; its bus is the environment, and the time-outs are the environment's answers
pub record ProxyClient : Type 0 where
  pub sender_id : String
  pub security_monitor_topic : String

-- the message to the security monitor that ProxyRequest and ProxyPublishAsync build
abbrev pub proxy_message :
    {F : Type 0} → String → ProxyClient → String → String → Fields F → Fields F
proxy_message action p target_topic target_action payload = entry "action" (str action) (
    entry "sender" (str p.sender_id) (
      only "payload" (
        obj (
          entry "target"
            (obj (entry "topic" (str target_topic) (only "action" (str target_action))))
            (only "data" (obj payload))))))

module _ {F : Type 0} where
  -- what ProxyRequest makes of the answer of the security monitor; `some none` is the nil map
  unfoldable pub target_payload : Option (Fields F) → Result (Option (Fields F))
  target_payload none = err "proxy response payload missing"
  target_payload (some payload) =
      if not (is_empty (get_string payload "error"))
      then err (get_string payload "error")
      else elim (get_map payload "target_response") [
        | none ↦ err "proxy target_response missing"
        | some target_resp ↦ ok (get_map target_resp "payload")
      ]

  unfoldable pub proxy_answer : Result (Fields F) → Result (Option (Fields F))
  unfolding target_payload
  proxy_answer (err e) = err e
  proxy_answer (ok resp) = target_payload (get_map resp "payload")

  -- the payload of a direct Request's response
  unfoldable pub request_answer : Result (Fields F) → Result (Option (Fields F))
  request_answer (err e) = err e
  request_answer (ok resp) =
      if get_bool resp "success"
      then ok (get_map resp "payload")
      else err (append "remote error: " (get_string resp "error"))

module _ {F S : Type 0} where
  unfoldable pub proxy_request :
      ProxyClient → String → String → Fields F → M F S (Result (Option (Fields F)))
  unfolding proxy_answer
  proxy_request p target_topic target_action payload = do
    resp ←
        request p.security_monitor_topic
          (proxy_message "proxy_request" p target_topic target_action payload)
    pure (proxy_answer resp)

  abbrev pub proxy_publish_async : ProxyClient → String → String → Fields F → M F S (Option String)
  proxy_publish_async p target_topic target_action payload =
      publish p.security_monitor_topic
        (proxy_message "proxy_publish" p target_topic target_action payload)

  -- AuditLogger.LogEvent
  abbrev pub log_event : ProxyClient → String → String → String → Fields F → M F S (Option String)
  log_event p journal_topic source event details =
      proxy_publish_async p journal_topic "LOG_EVENT"
        (entry "event" (str event) (entry "source" (str source) (only "details" (obj details))))

  -- the logToJournal of the components, which drops the error after printing it
  abbrev pub log_to_journal : ProxyClient → String → String → String → Fields F → M F S (Unit {0})
  log_to_journal p journal_topic source event details = do
    log_event p journal_topic source event details
    pure tt

  -- BaseComponent.Request
  unfoldable pub base_request :
      String → String → String → Fields F → M F S (Result (Option (Fields F)))
  unfolding request_answer
  base_request component_id topic action payload = do
    resp ← request topic (
        entry "action" (str action)
          (entry "payload" (obj payload) (only "sender" (str component_id))))
    pure (request_answer resp)

-- ShouldRunInterval: the answer, and the new value of *last
abbrev pub should_run_interval : {F : Type 0} → Floats F → F → F → F → Bool × F
should_run_interval fl now last interval_sec =
    if fl.lt (fl.sub now last) interval_sec then (false, last) else (true, now)

-- A handler answers with a map, which may be nil, or an error.
abbrev pub Handler : Type 0 → Type 0 → Type 0
Handler F S = Fields F → M F S (Result (Option (Fields F)))

-- A handler that returns no error.
abbrev pub infallible : {F S : Type 0} → (Fields F → M F S (Option (Fields F))) → Handler F S
infallible h message = do result ← h message; pure (ok result)

-- What RegisterHandler stores: one of the two built-in methods of the component itself, or a
-- handler of the component's owner.
pub data Registered (F S : Type 0) : Type 0 where
  ping get_status : Registered F S
  custom : Handler F S → Registered F S

-- BaseComponent, less its bus. The handlers map an action to a handler; a later registration of
-- an action replaces an earlier one.
pub record Base (F S : Type 0) : Type 0 where
  pub component_id : String
  pub component_type : String
  pub topic : String
  pub handlers : List (String × Registered F S)
  pub running : Bool

module _ {F S : Type 0} where
  unfoldable pub find_handler : List (String × Registered F S) → String → Option (Registered F S)
  find_handler [] action = none
  find_handler ((a, h) ∷ hs) action = if a == action then some h else find_handler hs action

  -- RegisterHandler
  unfoldable pub register_handler : String → Registered F S → Base F S → Base F S
  register_handler action h c = record c { handlers = (action, h) ∷ c.handlers }

  -- the keys of the map, each once
  registered : List (String × Registered F S) → List (String × Registered F S) → Items F
  registered [] seen = nil
  registered ((a, h) ∷ hs) seen =
      let rest = registered hs ((a, h) ∷ seen) in
      elim (find_handler seen a) [ none ↦ cons (str a) rest | some _ ↦ rest ]

  unfoldable pub handle_ping : Base F S → Handler F S
  handle_ping c message =
      pure (ok (some (entry "pong" (bool true) (only "component_id" (str c.component_id)))))

  unfoldable pub handle_get_status : Base F S → Handler F S
  unfolding registered find_handler
  handle_get_status c message = pure (
      ok (
        some (
          entry "component_id" (str c.component_id) (
            entry "component_type" (str c.component_type) (
              entry "topic" (str c.topic) (
                entry "running" (bool c.running)
                  (only "handlers" (arr (registered c.handlers [])))))))))

  -- NewBaseComponent and registerBuiltinHandlers
  unfoldable pub new_base_component : String → String → String → Base F S
  unfolding register_handler
  new_base_component component_id component_type topic = register_handler "get_status" get_status (
      register_handler "ping" ping (record {
        component_id = component_id;
        component_type = component_type;
        topic = topic;
        handlers = [];
        running = false;
      }))

  unfoldable pub call : Base F S → Registered F S → Handler F S
  unfolding handle_ping handle_get_status
  call c ping = handle_ping c
  call c get_status = handle_get_status c
  call c (custom h) = h

  -- what handleMessage does with the result of the handler
  unfoldable pub send_result : Base F S → Fields F → Result (Option (Fields F)) → M F S (Unit {0})
  unfolding respond create_response
  send_result c message (err e) = do respond message empty c.component_id false e; pure tt
  send_result c message (ok none) = pure tt
  send_result c message (ok (some payload)) = do
    resp ← create_response (get_string message "correlation_id") payload c.component_id true ""
    publish (get_string message "reply_to") resp
    pure tt

  unfoldable pub run_handler : Base F S → Fields F → Option (Registered F S) → M F S (Unit {0})
  unfolding respond send_result call
  run_handler c message none = if is_empty (get_string message "reply_to") then pure tt else do
    respond message (only "error" (str (append "unknown action: " (get_string message "action"))))
        c.component_id false "unknown action"
    pure tt
  run_handler c message (some h) = do
    result ← call c h message
    if is_empty (get_string message "reply_to") then pure tt else send_result c message result

  unfoldable pub handle_message : Base F S → Fields F → M F S (Unit {0})
  unfolding run_handler find_handler
  handle_message c message =
      if is_empty (get_string message "action")
      then pure tt
      else run_handler c message (find_handler c.handlers (get_string message "action"))

  -- RunControlLoop over what running() and the wait answer in each round: `false` in the first
  -- ends the loop before the step, `false` in the second (ctx.Done) after it.
  unfoldable pub run_control_loop : List (Bool × Bool) → M F S (Unit {0}) → M F S (Unit {0})
  run_control_loop [] step = pure tt
  run_control_loop ((running, waited) ∷ rounds) step =
      let rest = run_control_loop rounds step in
      if running then (step >> (if waited then rest else pure tt)) else pure tt
