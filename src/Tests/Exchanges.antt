-- ===== src/Tests/Exchanges.antt =====
-- The two brokers on a request that another message overtakes.
use drones.Common.{
  ℕ, String, false, none, some, List, [], ◌∷◌, ◌≡◌, refl, length, ◌+◌, itoa, Option,
}
use drones.Message.{Fields, Value, str, fields, only, empty}
use drones.Bus.{ok}
use drones.Broker.Table.{arrives, other, looks, Course, lookup, request_message, held}
use drones.Broker.Waiting.{published_then, first_reply}
use drones.Broker.Answering.{Numbered}
use drones.Broker.Mqtt
use drones.Broker.Mqtt.{Dial}
use drones.Broker.Kafka
use drones.Broker.Requests.{request-first_reply, request-closes}
use drones.Broker.Agreement.{on_messages, consume_claim-on_messages}

abbrev mqtt : Mqtt.Bus ℕ String
mqtt =
    Mqtt.new_bus "localhost" (drones.Message.pos 1883) "motors" (drones.Message.pos 1) "" ""
      "v1.d.I.replies.motors" 0 0

mqtt-Numbered : Numbered mqtt.table
unfolding Mqtt.new_bus lookup held
mqtt-Numbered = record { listed = λ k c e. cc; filled = λ c h. refl }

abbrev connects : Dial
connects = record { is_connected = false; refused = none }

abbrev sends : Mqtt.Sending
sends = record { dial = connects; not_marshalled = none; not_sent = none }

-- An answer under an identifier.
abbrev answer : String → Fields ℕ
answer id = fields (("correlation_id", str id) ∷ ("action", str "response") ∷ [])

-- Another request's answer comes first.
abbrev course : Course ℕ String
course = record {
  during = [];
  refused = none;
  moments =
      other (arrives "v1.d.I.replies.motors" (some (answer "6")))
      ∷ other (arrives "v1.d.I.replies.motors" (some (answer "7")))
      ∷ looks
      ∷ [];
  timed_out = "request timeout after 2.0s";
}

abbrev begun : Mqtt.Bus ℕ String
begun = (Mqtt.start connects mqtt).1

request-first_reply_example :
    (Mqtt.request connects course sends 7 "v1.d.I.cargo" empty mqtt).0
    ≡ published_then (Mqtt.start connects mqtt).0 (
        first_reply
          (record course {
            refused =
                (Mqtt.publish sends "v1.d.I.cargo"
                  (request_message empty (itoa 7) begun.reply_topic)
                  begun).0;
          })
          (itoa 7))
request-first_reply_example =
    request-first_reply connects course sends 7 "v1.d.I.cargo" empty mqtt mqtt-Numbered tt
      (tt, (tt, (tt, tt)))

answered_first :
    (Mqtt.request connects course sends 7 "v1.d.I.cargo" empty mqtt).0 ≡ ok (answer "7")
unfolding Mqtt.request Mqtt.new_bus drones.Message.get
answered_first = refl

request-closes_example :
    lookup (Mqtt.request connects course sends 7 "v1.d.I.cargo" empty mqtt).1.table.pending (itoa 7)
    ≡ none
unfolding Mqtt.start Mqtt.new_bus
request-closes_example = request-closes connects course sends 7 "v1.d.I.cargo" empty mqtt refl

abbrev kafka : Kafka.Bus ℕ String
kafka = Kafka.new_bus "localhost:9092" "motors" "" "" "" 0

abbrev messages : List (String × Option (Fields ℕ))
messages = ("v1.d.I.motors", some (answer "7")) ∷ ("v1.d.I.motors", none) ∷ []

consume_claim-on_messages_example :
    ((Kafka.consume_claim messages kafka).table ≡ (on_messages messages mqtt).table)
    × ((Kafka.consume_claim messages kafka).marked ≡ length messages + kafka.marked)
unfolding Kafka.new_bus Mqtt.new_bus
consume_claim-on_messages_example = consume_claim-on_messages messages kafka mqtt refl
