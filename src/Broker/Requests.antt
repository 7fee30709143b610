-- ===== src/Broker/Requests.antt =====
-- Request of the MQTT bus: its answer, what it leaves behind, and the numbering of the channels.
use drones.Common.{
  ℕ, String, none, ◌≡◌, sym, subst, arith, inl, inr, Option-cases, All, itoa, itoa-ne-empty,
}
use drones.Message.{Fields}
use drones.Broker.Table.{lookup, Course, request_message}
use drones.Broker.Waiting.{published_then, first_reply, Foreign, ForeignMoment}
use drones.Broker.Answering.{Numbered, exchange-first_reply, exchange-closes}
use drones.Broker.Mqtt.{Bus, Dial, Sending, get_client, start, publish, request_running, request}

module _ {F H : Type 0} where
  pub start-table : (d : Dial) (b : Bus F H) → (start d b).1.table ≡ b.table
  unfolding start get_client
  start-table d b = ground arith

  -- Request of the MQTT bus answers with the error of Start, or else with that of Publish, or else
  -- with the first message that arrives under its own identifier before it looks at its channel, or
  -- with the context's error or the time-out if none has by then. This holds whatever else arrives,
  -- and whatever other requests and handlers come and go, if none of those requests has the same
  -- identifier and the channels of the table were all made before.
  pub request-first_reply :
      (d : Dial) (c : Course F H) (s : Sending) (clock : ℕ) (topic : String) (message : Fields F)
      (b : Bus F H)
      → Numbered b.table
      → All (Foreign (itoa clock)) c.during
      → All (ForeignMoment (itoa clock)) c.moments
      → let begun = start d b in
        let msg = request_message message (itoa clock) begun.1.reply_topic in
        let refused = (publish s topic msg begun.1).0 in
        (request d c s clock topic message b).0
        ≡ published_then begun.0 (first_reply (record c { refused = refused }) (itoa clock))
  unfolding request request_running
  request-first_reply d c s clock topic message b n before after =
      elim (Option-cases (start d b).0) [
        | inr (e, failed) ↦ ground (arith, failed)
        | inl fine ↦
            let begun = (start d b).1 in
            let msg = request_message message (itoa clock) begun.reply_topic in
            let refused = (publish s topic msg begun).0 in
            let same = start-table d b in
            let numbered = subst Numbered (sym same) n in
            let answered =
              exchange-first_reply (record c { refused = refused }) (itoa clock) begun.table
                (itoa-ne-empty clock) numbered before after in
            ground (arith, fine, answered)
      ]

  -- Once the bus has started, however a request ends - published or not, answered, cancelled or
  -- timed out -, no entry of its identifier is left among those that wait.
  pub request-closes :
      (d : Dial) (c : Course F H) (s : Sending) (clock : ℕ) (topic : String) (message : Fields F)
      (b : Bus F H)
      → (start d b).0 ≡ none
      → lookup (request d c s clock topic message b).1.table.pending (itoa clock) ≡ none
  unfolding request request_running
  request-closes d c s clock topic message b fine =
      let begun = (start d b).1 in
      let msg = request_message message (itoa clock) begun.reply_topic in
      let refused = (publish s topic msg begun).0 in
      ground
        (arith, fine, exchange-closes (record c { refused = refused }) (itoa clock) begun.table)
