-- ===== src/Broker/Numbering.antt =====
-- The channels of the waiting requests: a channel that is not made yet is nowhere in the table.
use drones.Common.{
  ℕ, ◌<◌, String, Option, none, some, List, [], ◌∷◌, ◌==◌, is_empty, if◌then◌else◌, ◌≡◌, refl, sym,
  subst, itoa, arith, inl, inr, Bool-cases, Option-cases,
}
use drones.Message.{Fields, get_string}
use drones.Bus.{Result}
use drones.Broker.Table.{
  lookup, remove, store, Table, held, call_handler, place, offer, route, dispatch, open_request,
  close_request, Action, arrives, opens, closes, subscribes, unsubscribes, Moment, other, looks,
  done, act, act_all, take, wait, Course, await_answer, exchange, request_message,
}
use drones.Broker.Waiting.{lookup-remove}
use drones.Broker.Answering.{Numbered}
use drones.Broker.Requests.{start-table}
use drones.Broker.Mqtt.{Bus, Dial, Sending, start, publish, request_running, request}

module _ {F H : Type 0} where
  remove-Numbered :
      (k : String) (t : Table F H)
      → Numbered t
      → Numbered (record t { pending = remove t.pending k })
  remove-Numbered k t n = record {
    listed = λ j c e. n.listed j c (ground (arith, lookup-remove t.pending k j, e));
    filled = n.filled;
  }

  place-Numbered :
      (o : Option (Fields F)) (c : ℕ) (m : Fields F) (t : Table F H)
      → c < t.next
      → Numbered t
      → Numbered (place o c m t)
  unfolding held
  place-Numbered (some k) c m t lt n = n
  place-Numbered none c m t lt n = record {
    listed = n.listed;
    filled = λ d le. ground (arith, n.filled d le);
  }

  call_handler-Numbered :
      (m : Fields F) (h : Option H) (t : Table F H) → Numbered t → Numbered (call_handler m h t)
  unfolding call_handler
  call_handler-Numbered m none t n = n
  call_handler-Numbered m (some h) t n = record { listed = n.listed; filled = n.filled }

  route-Numbered :
      (o : Option ℕ) (topic : String) (m : Fields F) (t : Table F H)
      → ((c : ℕ) → o ≡ some c → c < t.next)
      → Numbered t
      → Numbered (route topic m o t)
  unfolding offer
  route-Numbered none topic m t lt n = call_handler-Numbered m (lookup t.handlers topic) t n
  route-Numbered (some c) topic m t lt n =
      let corr = get_string m "correlation_id" in
      let unlisted : Table F H = record t { pending = remove t.pending corr } in
      place-Numbered (held t.channels c) c m unlisted (lt c refl) (remove-Numbered corr t n)

  open-Numbered : (k : String) (t : Table F H) → Numbered t → Numbered (open_request k t)
  unfolding open_request lookup store
  open-Numbered k t n = record {
    listed = λ j c e. elim (Bool-cases (k == j)) [
      | inl same ↦ ground (arith, same, e)
      | inr differs ↦
          ground (arith, n.listed j c (ground (arith, differs, e, lookup-remove t.pending k j)))
    ];
    filled = λ c le. n.filled c (omega (arith, le));
  }

  act-Numbered : (a : Action F H) (t : Table F H) → Numbered t → Numbered (act a t)
  unfolding act dispatch close_request
  act-Numbered (arrives topic none) t n = n
  act-Numbered (arrives topic (some m)) t n =
      let corr = get_string m "correlation_id" in
      route-Numbered (if is_empty corr then none else lookup t.pending corr) topic m t
        (λ c e. n.listed corr c (elim (Bool-cases (is_empty corr)) [
          | inl blank ↦ absurd (ground (arith, blank, e))
          | inr named ↦ ground (arith, named, e)
        ]))
        n
  act-Numbered (opens k) t n = open-Numbered k t n
  act-Numbered (closes k) t n = remove-Numbered k t n
  act-Numbered (subscribes topic h) t n = record { listed = n.listed; filled = n.filled }
  act-Numbered (unsubscribes topic) t n = record { listed = n.listed; filled = n.filled }

  act_all-Numbered :
      (as' : List (Action F H)) (t : Table F H) → Numbered t → Numbered (act_all as' t)
  unfolding act_all
  act_all-Numbered [] t n = n
  act_all-Numbered (a ∷ as') t n = act_all-Numbered as' (act a t) (act-Numbered a t n)

  take-Numbered :
      (o : Option (Fields F)) (t : Table F H) (later : Result (Fields F) × Table F H)
      → Numbered t
      → Numbered later.1
      → Numbered (take o t later).1
  take-Numbered (some m) t later n k = n
  take-Numbered none t later n k = k

  wait-Numbered :
      (timed_out : String) (ch : ℕ) (ms : List (Moment F H)) (t : Table F H)
      → Numbered t
      → Numbered (wait timed_out ch ms t).1
  unfolding wait
  wait-Numbered timed_out ch [] t n = n
  wait-Numbered timed_out ch (other a ∷ ms) t n =
      wait-Numbered timed_out ch ms (act a t) (act-Numbered a t n)
  wait-Numbered timed_out ch (looks ∷ ms) t n =
      take-Numbered (held t.channels ch) t (wait timed_out ch ms t) n
        (wait-Numbered timed_out ch ms t n)
  wait-Numbered timed_out ch (done e ∷ ms) t n = n

  await_answer-Numbered :
      (c : Course F H) (ch : ℕ) (o : Option String) (t : Table F H)
      → Numbered t
      → Numbered (await_answer c ch o t).1
  unfolding await_answer
  await_answer-Numbered c ch (some e) t n = n
  await_answer-Numbered c ch none t n = wait-Numbered c.timed_out ch c.moments t n

  pub exchange-Numbered :
      (c : Course F H) (id : String) (t : Table F H) → Numbered t → Numbered (exchange c id t).1
  unfolding exchange close_request
  exchange-Numbered c id t n = remove-Numbered id _ (
      await_answer-Numbered c t.next c.refused _
        (act_all-Numbered c.during _ (open-Numbered id t n)))

  -- Whatever happens while a request of the MQTT bus waits, and however it ends: if the channels of
  -- the waiting requests and the filled ones were made before it, so they are afterwards, and a
  -- channel that is made later is a new one.
  pub request-Numbered :
      (d : Dial) (c : Course F H) (s : Sending) (clock : ℕ) (topic : String) (message : Fields F)
      (b : Bus F H)
      → Numbered b.table
      → Numbered (request d c s clock topic message b).1.table
  unfolding request request_running
  request-Numbered d c s clock topic message b n =
      let begun = (start d b).1 in
      let numbered = subst Numbered (sym (start-table d b)) n in
      elim (Option-cases (start d b).0) [
        | inr (e, failed) ↦ subst (λ (x : Table F H). Numbered x) (ground (arith, failed)) numbered
        | inl fine ↦
            let msg = request_message message (itoa clock) begun.reply_topic in
            let refused = (publish s topic msg begun).0 in
            subst (λ (x : Table F H). Numbered x) (ground (arith, fine))
              (exchange-Numbered (record c { refused = refused }) (itoa clock) begun.table numbered)
      ]
