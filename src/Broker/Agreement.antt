-- ===== src/Broker/Agreement.antt =====
-- The loop of the Kafka consumer and the handler of the MQTT client, which the source has twice.
use drones.Common.{
  ℕ, suc, ◌+◌, String, Option, none, some, List, [], ◌∷◌, ◌≡◌, ◌∙◌, refl, ap, arith, inl, inr,
  Bool-cases, Option-cases, is_empty, length,
}
use drones.Message.{Fields, get_string}
use drones.Broker.Table.{lookup, remove, held, call_handler, place, offer, dispatch, dispatch_read}
use drones.Broker.Mqtt
use drones.Broker.Kafka

module _ {F H : Type 0} where
  -- the messages one after the other through the handler of the MQTT client
  abbrev pub on_messages : List (String × Option (Fields F)) → Mqtt.Bus F H → Mqtt.Bus F H
  on_messages [] b = b
  on_messages ((topic, m) ∷ ms) b = on_messages ms (Mqtt.on_message topic m b)

  run_handler-table :
      (m : Fields F) (h : Option H) (k : Kafka.Bus F H)
      → ((Kafka.run_handler m h k).table ≡ call_handler m h k.table)
        × ((Kafka.run_handler m h k).marked ≡ k.marked)
  unfolding Kafka.run_handler call_handler
  run_handler-table m none k = (refl, refl)
  run_handler-table m (some h) k = (refl, refl)

  fill-table :
      (o : Option (Fields F)) (ch : ℕ) (m : Fields F) (k : Kafka.Bus F H)
      → ((Kafka.fill o ch m k).table ≡ place o ch m k.table)
        × ((Kafka.fill o ch m k).marked ≡ k.marked)
  unfolding Kafka.fill
  fill-table (some n) ch m k = (refl, refl)
  fill-table none ch m k = (refl, refl)

  consume_handled-table :
      (topic : String) (m : Fields F) (k : Kafka.Bus F H)
      → ((Kafka.consume_handled topic m k).table
          ≡ call_handler m (lookup k.table.handlers topic) k.table)
        × ((Kafka.consume_handled topic m k).marked ≡ suc k.marked)
  unfolding Kafka.consume_handled
  consume_handled-table topic m k =
      let (same, marks) = run_handler-table m (lookup k.table.handlers topic) k in
      (same, ap suc marks)

  consume_reply-table :
      (corr : String) (ch : ℕ) (m : Fields F) (k : Kafka.Bus F H)
      → ((Kafka.consume_reply corr ch m k).table
          ≡ offer ch m (record k.table { pending = remove k.table.pending corr }))
        × ((Kafka.consume_reply corr ch m k).marked ≡ suc k.marked)
  unfolding Kafka.consume_reply offer
  consume_reply-table corr ch m k =
      let pending = remove k.table.pending corr in
      let unlisted : Kafka.Bus F H = record k { table = record k.table { pending = pending } } in
      let (same, marks) = fill-table (held k.table.channels ch) ch m unlisted in
      (same, ap suc marks)

  consume-table :
      (topic : String) (o : Option (Fields F)) (k : Kafka.Bus F H)
      → ((Kafka.consume (topic, o) k).table ≡ dispatch_read topic o k.table)
        × ((Kafka.consume (topic, o) k).marked ≡ suc k.marked)
  unfolding Kafka.consume dispatch
  consume-table topic none k = (refl, refl)
  consume-table topic (some m) k =
      let corr = get_string m "correlation_id" in
      let handled = consume_handled-table topic m k in
      elim (Bool-cases (is_empty corr)) [
        | inl blank ↦ ground (arith, blank, handled.0, handled.1)
        | inr named ↦ elim (Option-cases (lookup k.table.pending corr)) [
          | inl unclaimed ↦ ground (arith, named, unclaimed, handled.0, handled.1)
          | inr (ch, waits) ↦
              let replied = consume_reply-table corr ch m k in
              ground (arith, named, waits, replied.0, replied.1)
        ]
      ]

  -- On the same messages, in the same order and from the same table, the loop of the Kafka consumer
  -- and the handler of the MQTT client, which are two pieces of code, make the same calls of
  -- handlers, fill the same channels and leave the same requests waiting; and the loop marks each
  -- message once, also one that it cannot read or that answers a request.
  pub consume_claim-on_messages :
      (ms : List (String × Option (Fields F))) (k : Kafka.Bus F H) (b : Mqtt.Bus F H)
      → k.table ≡ b.table
      → ((Kafka.consume_claim ms k).table ≡ (on_messages ms b).table)
        × ((Kafka.consume_claim ms k).marked ≡ length ms + k.marked)
  unfolding Kafka.consume_claim Mqtt.on_message
  consume_claim-on_messages [] k b same = (same, omega arith)
  consume_claim-on_messages ((topic, m) ∷ ms) k b same =
      let (routed, marks) = consume-table topic m k in
      let ih =
        consume_claim-on_messages ms (Kafka.consume (topic, m) k) (Mqtt.on_message topic m b)
          (routed ∙ ap (dispatch_read topic m) same) in
      (ih.0, omega (arith, ih.1, marks))
