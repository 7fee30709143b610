-- ===== src/Lib.antt =====
-- Verification of the delivery drone's on-board components.
--
-- The program. The components of the drone are processes that exchange JSON messages over a
-- broker. Each is a BaseComponent (component/src) with a map of handlers. A component reaches another
-- only through the security monitor (security_monitor/src), which forwards a proxy_request or a
-- proxy_publish if its policies name the sender, the topic and the action, and which has a
-- second mode, isolation, with policies for the emergency component alone. The autopilot
-- (autopilot/src) asks the limiter, the take-off authority and the drone port before it flies, follows the
-- steps of a mission, and commands the motors and the cargo bay through the monitor. A mission comes in
-- through the mission handler (mission_handler/src), which has the limiter (limiter/src) check it before the
-- autopilot gets it; the limiter has the air traffic authority (ORVD) clear missions and take-offs, and
-- watches the position. When the drone is too far
-- from the last point of its mission, the limiter has the emergency component
-- (emergency/src) isolate the drone, close the cargo bay and land; that component also speaks with the
-- drone port.
--
-- The files.
--   Common      tests on numbers and texts, list lemmas, and the functions of Go's package strings
--   Message     map[string]interface{} as Fields, a list of entries; get is m[k], put is m[k] = v, and
--               string_of, map_of and the like are the type assertions with their zero values
--   Bus         bus/src/bus.go and sdk/src/messages.go: the broker and the clock as an environment, and
--               M, the actions of a component; Bus.Keeps has the rules for invariants of actions
--   Floats      float64
--   Config      config/src: the configuration and its topics; Config.Credentials for broker_auth.go,
--               Config.Environment for FromEnv
--   Access      bus/auth/mqtt_acl.go: the access control list of the broker; Access.Reading says how
--               such a list is read
--   Broker      bus/src/mqtt/bus.go and bus/src/kafka/bus.go: Mqtt and Kafka, over the Table of
--               waiting requests and handlers that both have; the messages that
--               arrive while a request waits go through dispatch, the handler of the MQTT client, also
--               for Kafka, where ConsumeClaim is a second piece of code (consume) that Agreement compares with it
--   Analytics   sdk/src/analytics.go
--   Journal     journal/src/journal.go; its file is a text
--   Component   component/src: handleMessage is handle_message, ProxyRequest is proxy_request,
--               ProxyPublishAsync is proxy_publish_async, LogEvent is log_event
--   SecurityMonitor   security_monitor/src: Policy and PolicyStore for policy_store.go, State, Service
--               and Watchdog for security_monitor.go, Isolation for isolation.go, Proxy for
--               proxy_handlers.go; a handler handleX is handle_x
--   Cargo       cargo/src/cargo.go
--   Navigation  navigation/src/navigation.go
--   Motors      motors/src/motors.go
--   Autopilot   autopilot/src/autopilot.go: State for the state and the commands, Actuators for
--               the orders to motors and cargo, Preflight for stepPreFlight, Control for the
--               control loop, Commands for the message handlers
--   Limiter     limiter/src: State and Fence for the state and the geofence of limiter.go, Handlers for
--               its messages, Bounds for validateMissionBounds of orvd.go, Orvd, Registration and
--               Takeoff for the dialogue with the air traffic authority (opbd_client.go), Journey for
--               registerHandlers and controlLoop as a run over inputs
--   MissionHandler   mission_handler/src: State and Handlers for mission_handler.go, Wpl for
--               wpl_parser.go
--   Emergency   emergency/src: State, Handlers for the messages and the protocol of emergency.go, Port
--               for how droneport.go and droneport_client.go read answers, Session for the requests
--               to the drone port, Preflight for runPreflight and runPostMissionLand
--   Telemetry   telemetry/src/telemetry.go, and the accessors of sdk/src/analytics.go
--   Delivery    delivery/src/delivery.go
--   Certification   certification: Regulator for client.go and types.go, EnvFile for envfile.go
--   Tests       concrete inputs
-- The other modules under a component hold theorems: Membership, Consistent, Gateway, Authority, Switch,
-- Updates, Supervision and Service.Safe of the security monitor, Door, Merge, Motors.Commands, Answers, Clearance,
-- Kover, Halt, Range, Rounds and Journey of the autopilot, Stable, Envelope, Authorization, Loading,
-- Handover (the limiter's answer as the autopilot reads it), Breach, Permission, Limits, Patrol
-- and Journey of the limiter, Valid
-- and Chain (from the mission handler over the limiter to the autopilot) of the mission handler,
-- Protocol, Search, Steady, Grant, Departure and Rescue (the emergency's orders at the security monitor, the cargo
-- bay and the motors) of the emergency component, Telemetry.Post, Lines, Sections, Rules, Granted and Users of the
-- access control list, Agreement and Deployment of the configuration (the user that a component logs in as
-- and its topics, against that list), Waiting, Answering, Requests, Numbering and Agreement of the
-- brokers, Journal.Appending, Verdict and Lookup of the certification, Delivery.Counting.
--
-- How the code is modelled. An action of a component is a function from an environment and a run (its
-- state and the messages sent so far, the latest first) to a result and a run. The environment
-- answers requests, publications and readings of the clock, and may answer differently each time, as
-- its answers depend on the messages so far. A component takes its lock for each critical section and
-- lets it go while a request waits; `meanwhile` is what its other goroutines do to the state then, and
-- theorems that rest on those say so (Rely). Other interleavings, at the gaps between two
-- critical sections with no request between them, are not modelled. A Go map is a list of entries
-- that is read at the first entry of a key; a map from senders to times is such a list too, and a set of
-- policies is a list without duplicates. Integers that count are native numbers, the int64 version of
-- the safety state is its bit pattern modulo 2 ^ 64, and times are nanoseconds. The loops of the code
-- run over lists and are structural recursions, so that no fuel is needed; the endless control loop and
-- the watchdog are runs over a list of rounds or inputs. unwrapDroneportBody counts its rounds itself, and
-- pad3's loop runs on 3 rounds of fuel, enough as each adds a character and the loop ends at three.
--
-- The brokers are below that: a request there is a course of moments, in which messages arrive, other
-- requests begin and end, handlers come and go, and the request looks at its channel; it is
-- any list, so that every interleaving with the other goroutines at their critical sections is one. The
-- handlers of a broker are values, and their calls are recorded. Environment variables are a function.
--
-- Parameters. float64 and the package math are a record of operations, and a theorem that needs a law of
-- them names it; json.Unmarshal, strconv.ParseFloat, fmt.Sscanf,
-- time.Format and the broker are functions. ToUpper, ToLower and EqualFold
-- are given on the characters that reach ASCII, since their results are compared with ASCII texts; but in
-- the severity of an event and in the prefix of a component's environment variables, a letter that
-- does not reach ASCII keeps its case in the model.
--
-- Not modelled: the reading of environment variables in New of the cargo, motors, navigation, mission
-- handler, emergency component and security monitor (what it yields is an argument of the new_
-- functions; Startup of the limiter, the autopilot and the telemetry has it), log.Printf, Start and Stop of the components with their
-- subscriptions, and time-outs other than as an environment's answer; applyORVDConstraints, which the
-- limiter never calls; the options of the Kafka and MQTT clients but for the credentials, and the choice
-- of the broker (bus/src/factory.go); the goroutines around the Kafka consumer of the certification, and
-- the reading of its environment file; NewMessage, ParseMessage and ToMap of sdk/src/messages.go, which
-- no component calls; the commands under cmd and tools.
pub mod Common
pub mod Message
pub mod Bus
pub mod Floats
pub mod Config
pub mod Component
pub mod SecurityMonitor
pub mod Access
pub mod Analytics
pub mod Journal
pub mod Broker
pub mod Cargo
pub mod Certification
pub mod Delivery
pub mod Navigation
pub mod Motors
pub mod Autopilot
pub mod Limiter
pub mod MissionHandler
pub mod Emergency
pub mod Telemetry
mod Tests
