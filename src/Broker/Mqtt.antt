-- ===== src/Broker/Mqtt.antt =====
-- bus/src/mqtt/bus.go: Bus. What the client library answers is an argument of each operation.
use drones.Common.{
  ℕ, zero, suc, ◌%◌, String, append, Bool, true, false, not, ◌&&◌, Option, none, some, List, [],
  ◌∷◌, ◌++◌, itoa, leb, is_empty, trim_space, if◌then◌else◌,
}
use drones.Message.{Fields, ℤ, pos, negsuc}
use drones.Bus.{Result, err}
use drones.Broker.Table.{
  remove, store, Table, new_table, keys, exchange, Course, request_message, dispatch_read,
}

-- The subscriptions that the client asked for, and the messages that it sent, are kept in order.
pub record Bus (F H : Type 0) : Type 0 where
  pub broker : String
  pub port : ℤ
  pub client_id : String
  pub qos : ℕ
  pub username : String
  pub password : String
  pub has_client : Bool
  pub table : Table F H
  pub reply_topic : String
  pub running : Bool
  pub subscribed : List String
  pub sent : List (String × Fields F)

abbrev port_or_default : ℤ → ℤ
port_or_default (pos zero) = pos 1883
port_or_default (pos (suc n)) = pos (suc n)
port_or_default (negsuc n) = pos 1883

abbrev qos_or_default : ℤ → ℕ
qos_or_default (pos n) = if leb n 2 then n else 1
qos_or_default (negsuc n) = 1

-- New, with what the two calls of time.Now().UnixNano() give
unfoldable pub new_bus :
    {F H : Type 0} → String → ℤ → String → ℤ → String → String → String → ℕ → ℕ → Bus F H
unfolding trim_space itoa
new_bus broker port client_id qos username password reply_topic first_clock clock = record {
  broker = broker;
  port = port_or_default port;
  client_id = append client_id (append "_" (itoa (clock % 10000)));
  qos = qos_or_default qos;
  username = username;
  password = password;
  has_client = false;
  table = new_table;
  reply_topic =
      if is_empty (trim_space reply_topic)
      then append "replies." (append client_id (append "." (itoa (first_clock % 100000))))
      else reply_topic;
  running = false;
  subscribed = [];
  sent = [];
}

-- client.IsConnected() where there is a client, and the error of Connect
pub record Dial : Type 0 where
  pub is_connected : Bool
  pub refused : Option String

-- an error of getClient, of json.Marshal and of the publication
pub record Sending : Type 0 where
  pub dial : Dial
  pub not_marshalled : Option String
  pub not_sent : Option String

abbrev pub first_error : Option String → Option String → Option String
first_error (some e) later = some e
first_error none later = later

module _ {F H : Type 0} where
  -- the credentials that getClient sets
  unfoldable pub credentials : Bus F H → Option (String × String)
  credentials b =
      if not (is_empty b.username) && not (is_empty b.password)
      then some (b.username, b.password)
      else none

  abbrev connected : Option String → Bus F H → Option String × Bus F H
  connected (some e) b = (some e, b)
  connected none b = (none, record b { has_client = true })

  -- getClient: its error, and the bus
  unfoldable pub get_client : Dial → Bus F H → Option String × Bus F H
  get_client d b = if b.has_client && d.is_connected then (none, b) else connected d.refused b

  -- the handler of all messages of the client, with what json.Unmarshal gives
  unfoldable pub on_message : String → Option (Fields F) → Bus F H → Bus F H
  on_message topic m b = record b { table = dispatch_read topic m b.table }

  abbrev started : Option String → Bus F H → Option String × Bus F H
  started (some e) b = (some e, b)
  started none b = (
    none,
    record b {
      running = true;
      subscribed = b.subscribed ++ (b.reply_topic ∷ keys b.table.handlers);
    },
  )

  unfoldable pub start : Dial → Bus F H → Option String × Bus F H
  unfolding get_client
  start d b = if b.running then (none, b) else started (get_client d b).0 (get_client d b).1

  unfoldable pub stop : Bus F H → Bus F H
  stop b = if b.running then record b { running = false; has_client = false } else b

  abbrev sent_to : String → Fields F → Option String → Bus F H → Option String × Bus F H
  sent_to topic message (some e) b = (some e, b)
  sent_to topic message none b = (none, record b { sent = b.sent ++ ((topic, message) ∷ []) })

  -- Publish: its error, and the bus
  unfoldable pub publish : Sending → String → Fields F → Bus F H → Option String × Bus F H
  unfolding get_client
  publish s topic message b =
      let got = get_client s.dial b in
      sent_to topic message (first_error got.0 (first_error s.not_marshalled s.not_sent)) got.1

  -- Subscribe, given client.IsConnected()
  unfoldable pub subscribe : Bool → String → H → Bus F H → Bus F H
  unfolding store
  subscribe is_connected topic handler b =
      let table = record b.table { handlers = store b.table.handlers topic handler } in
      if b.has_client && is_connected
      then record b { table = table; subscribed = b.subscribed ++ (topic ∷ []) }
      else record b { table = table }

  -- Unsubscribe; what the client then does at the broker is its own
  unfoldable pub unsubscribe : String → Bus F H → Bus F H
  unfolding remove
  unsubscribe topic b = record b {
    table = record b.table { handlers = remove b.table.handlers topic };
  }

  -- Request of a running bus
  unfoldable pub request_running :
      Course F H → Sending → ℕ → String → Fields F → Bus F H → Result (Fields F) × Bus F H
  unfolding exchange request_message publish itoa
  request_running c s clock topic message b =
      let id = itoa clock in
      let published = publish s topic (request_message message id b.reply_topic) b in
      let exchanged = exchange (record c { refused = published.0 }) id b.table in
      (exchanged.0, record published.1 { table = exchanged.1 })

  abbrev after_start :
      Course F H
      → Sending
      → ℕ
      → String
      → Fields F
      → Option String × Bus F H
      → Result (Fields F) × Bus F H
  after_start c s clock topic message (some e, b) = (err e, b)
  after_start c s clock topic message (none, b) = request_running c s clock topic message b

  -- Request; clock is what time.Now().UnixNano() gives
  unfoldable pub request :
      Dial → Course F H → Sending → ℕ → String → Fields F → Bus F H → Result (Fields F) × Bus F H
  unfolding start request_running
  request d c s clock topic message b = after_start c s clock topic message (start d b)
