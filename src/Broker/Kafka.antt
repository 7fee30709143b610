-- ===== src/Broker/Kafka.antt =====
-- bus/src/kafka/bus.go: Bus. What the client library answers is an argument of each operation.
use drones.Common.{
  ℕ, suc, ◌%◌, String, append, Bool, true, false, not, ◌&&◌, Option, none, some, List, [], ◌∷◌,
  ◌++◌, itoa, is_empty, if◌then◌else◌,
}
use drones.Message.{Fields, bool, only, get_string}
use drones.Bus.{Result, err}
use drones.Broker.Table.{
  lookup, remove, store, Table, new_table, keys, held, exchange, Course, request_message,
}
use drones.Broker.Mqtt.{first_error}

-- The messages that the producer sent are kept in order; marked counts those that were consumed.
pub record Bus (F H : Type 0) : Type 0 where
  pub broker : String
  pub client_id : String
  pub group_id : String
  pub username : String
  pub password : String
  pub has_producer : Bool
  pub has_consumer : Bool
  pub reply_topic : String
  pub table : Table F H
  pub consumer_group_id : String
  pub running : Bool
  pub consuming : Option (List String)
  pub sent : List (String × Fields F)
  pub marked : ℕ

-- New, with what time.Now().UnixNano() gives
unfoldable pub new_bus : {F H : Type 0} → String → String → String → String → String → ℕ → Bus F H
unfolding itoa
new_bus broker client_id group_id username password clock =
    let group = if is_empty group_id then append client_id "_group" else group_id in
    record {
      broker = broker;
      client_id = client_id;
      group_id = group;
      username = username;
      password = password;
      has_producer = false;
      has_consumer = false;
      reply_topic = append "replies." (append client_id (append "." (itoa (clock % 100000))));
      table = new_table;
      consumer_group_id = append group "_cg";
      running = false;
      consuming = none;
      sent = [];
      marked = 0;
    }

-- an error of NewSyncProducer, of json.Marshal and of SendMessage
pub record Sending : Type 0 where
  pub no_producer : Option String
  pub not_marshalled : Option String
  pub not_sent : Option String

module _ {F H : Type 0} where
  -- the credentials of cfg.Net.SASL
  unfoldable pub credentials : Bus F H → Option (String × String)
  credentials b =
      if not (is_empty b.username) && not (is_empty b.password)
      then some (b.username, b.password)
      else none

  abbrev produced : Option String → Bus F H → Option String × Bus F H
  produced (some e) b = (some e, b)
  produced none b = (none, record b { has_producer = true })

  -- getProducer, with the error of NewSyncProducer
  unfoldable pub get_producer : Option String → Bus F H → Option String × Bus F H
  get_producer failed b = if b.has_producer then (none, b) else produced failed b

  abbrev sent_to : String → Fields F → Option String → Bus F H → Option String × Bus F H
  sent_to topic message (some e) b = (some e, b)
  sent_to topic message none b = (none, record b { sent = b.sent ++ ((topic, message) ∷ []) })

  -- publishJSON, which Publish calls
  unfoldable pub publish_json : Sending → String → Fields F → Bus F H → Option String × Bus F H
  unfolding get_producer
  publish_json s topic message b =
      let got = get_producer s.no_producer b in
      sent_to topic message (first_error got.0 (first_error s.not_marshalled s.not_sent)) got.1

  unfoldable pub get_topics : Bus F H → List String
  get_topics b = b.reply_topic ∷ keys b.table.handlers

  -- startConsumer up to the call of Consume: nothing is consumed if there is no consumer group
  unfoldable pub start_consumer : Option String → Bus F H → Bus F H
  unfolding get_topics
  start_consumer (some e) b = b
  start_consumer none b = record b { has_consumer = true; consuming = some (get_topics b) }

  -- session.MarkMessage
  abbrev pub mark_message : Bus F H → Bus F H
  mark_message b = record b { marked = suc b.marked }

  -- if handler != nil { handler(m) }
  unfoldable pub run_handler : Fields F → Option H → Bus F H → Bus F H
  run_handler m none b = b
  run_handler m (some handler) b = record b {
    table = record b.table { calls = b.table.calls ++ ((handler, m) ∷ []) };
  }

  -- select { case ch <- m: default: }, given what the channel holds
  unfoldable pub fill : Option (Fields F) → ℕ → Fields F → Bus F H → Bus F H
  fill (some n) ch m b = b
  fill none ch m b = record b { table = record b.table { channels = (ch, m) ∷ b.table.channels } }

  -- the message to the handler of its topic
  unfoldable pub consume_handled : String → Fields F → Bus F H → Bus F H
  unfolding run_handler lookup
  consume_handled topic m b = mark_message (run_handler m (lookup b.table.handlers topic) b)

  -- the message to the channel of the request that waits for it
  unfoldable pub consume_reply : String → ℕ → Fields F → Bus F H → Bus F H
  unfolding remove held fill
  consume_reply corr ch m b =
      let pending = remove b.table.pending corr in
      let unlisted : Bus F H = record b { table = record b.table { pending = pending } } in
      mark_message (fill (held unlisted.table.channels ch) ch m unlisted)

  -- the body of the loop of ConsumeClaim, with what json.Unmarshal gives
  unfoldable pub consume : String × Option (Fields F) → Bus F H → Bus F H
  unfolding consume_handled consume_reply lookup
  consume (topic, none) b = mark_message b
  consume (topic, some m) b =
      let corr = get_string m "correlation_id" in
      if is_empty corr then consume_handled topic m b else elim (lookup b.table.pending corr) [
        | some ch ↦ consume_reply corr ch m b
        | none ↦ consume_handled topic m b
      ]

  unfoldable pub consume_claim : List (String × Option (Fields F)) → Bus F H → Bus F H
  unfolding consume
  consume_claim [] b = b
  consume_claim (m ∷ ms) b = consume_claim ms (consume m b)

  abbrev started : Sending → Option String → Option String × Bus F H → Option String × Bus F H
  started s no_group (some e, b) = (some e, b)
  started s no_group (none, b) =
      let announced = publish_json s b.reply_topic (only "_init" (bool true)) b in
      (none, start_consumer no_group (record announced.1 { running = true }))

  -- Start, with the answers for the message to the reply topic, and the error of NewConsumerGroup;
  -- the consumer that it starts in a goroutine is started at once
  unfoldable pub start : Sending → Option String → Bus F H → Option String × Bus F H
  unfolding get_producer publish_json start_consumer
  start s no_group b =
      if b.running then (none, b) else started s no_group (get_producer s.no_producer b)

  -- Stop; the field consumer is not cleared
  unfoldable pub stop : Bus F H → Bus F H
  stop b =
      if b.running then record b { running = false; has_producer = false; consuming = none } else b

  unfoldable pub subscribe : String → H → Bus F H → Bus F H
  unfolding store
  subscribe topic handler b = record b {
    table = record b.table { handlers = store b.table.handlers topic handler };
  }

  unfoldable pub unsubscribe : String → Bus F H → Bus F H
  unfolding remove
  unsubscribe topic b = record b {
    table = record b.table { handlers = remove b.table.handlers topic };
  }

  -- Request of a running bus
  unfoldable pub request_running :
      Course F H → Sending → ℕ → String → Fields F → Bus F H → Result (Fields F) × Bus F H
  unfolding exchange request_message publish_json itoa
  request_running c s clock topic message b =
      let id = itoa clock in
      let published = publish_json s topic (request_message message id b.reply_topic) b in
      let exchanged = exchange (record c { refused = published.0 }) id b.table in
      (exchanged.0, record published.1 { table = exchanged.1 })

  abbrev after_start :
      Course F H
      → Sending
      → ℕ
      → String
      → Fields F
      → Option String × Bus F H
      → Result (Fields F) × Bus F H
  after_start c s clock topic message (some e, b) = (err e, b)
  after_start c s clock topic message (none, b) = request_running c s clock topic message b

  -- Request; clock is what time.Now().UnixNano() gives
  unfoldable pub request :
      Sending
      → Option String
      → Course F H
      → Sending
      → ℕ
      → String
      → Fields F
      → Bus F H
      → Result (Fields F) × Bus F H
  unfolding start request_running
  request init no_group c s clock topic message b =
      after_start c s clock topic message (start init no_group b)
