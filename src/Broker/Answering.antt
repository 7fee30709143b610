-- ===== src/Broker/Answering.antt =====
-- Request of both brokers: it answers with the first message of its identifier.
use drones.Common.{
  ℕ, ◌<◌, ◌≤◌, String, false, Option, none, some, List, [], ◌∷◌, ◌==◌, eq_iff, is_empty,
  if◌then◌else◌, ◌≡◌, ◌≢◌, refl, sym, ap, ◌∙◌, arith, inl, inr, Bool-cases, All,
}
use drones.Message.{Fields, get_string}
use drones.Broker.Table.{
  lookup, remove, store, Table, held, offer, route, dispatch, open_request, close_request, Action,
  arrives, opens, closes, subscribes, unsubscribes, Moment, other, looks, done, act, act_all, take,
  wait, Course, await_answer, exchange,
}
use drones.Broker.Waiting.{
  received, received_all, awaited, published_then, first_reply, Foreign, ForeignMoment, Waits, Tied,
  lookup-remove, place-keeps, place-other, call_handler-Waits, call_handler-keeps, remove-Waits,
  open-Waits,
}

module _ {F H : Type 0} (id : String) (ch : ℕ) where
  route-keeps :
      (o : Option ℕ) (topic : String) (m n : Fields F) (t : Table F H)
      → held t.channels ch ≡ some m
      → held (route topic n o t).channels ch ≡ some m
  unfolding offer
  route-keeps none topic m n t h = call_handler-keeps id ch m n (lookup t.handlers topic) t h
  route-keeps (some c) topic m n t h =
      let unlisted : Table F H = record t {
        pending = remove t.pending (get_string n "correlation_id");
      } in
      place-keeps id ch (held t.channels c) c m n unlisted refl h

  act-keeps :
      (a : Action F H) (m : Fields F) (t : Table F H)
      → held t.channels ch ≡ some m
      → held (act a t).channels ch ≡ some m
  unfolding act dispatch open_request close_request
  act-keeps (arrives topic none) m t h = h
  act-keeps (arrives topic (some n)) m t h = route-keeps _ topic m n t h
  act-keeps (opens k) m t h = h
  act-keeps (closes k) m t h = h
  act-keeps (subscribes topic k) m t h = h
  act-keeps (unsubscribes topic) m t h = h

  route-other :
      (o : Option ℕ) (topic : String) (n : Fields F) (t : Table F H)
      → o ≢ some ch
      → get_string n "correlation_id" ≢ id
      → Waits id ch t
      → Waits id ch (route topic n o t)
  unfolding offer
  route-other none topic n t ne foreign w = call_handler-Waits id ch n (lookup t.handlers topic) t w
  route-other (some c) topic n t ne foreign w =
      let corr = get_string n "correlation_id" in
      let unlisted : Table F H = record t { pending = remove t.pending corr } in
      place-other id ch (held t.channels c) c n unlisted (λ e. ne (ap some e))
        (remove-Waits id ch corr t foreign w)

  -- The message with the identifier goes to the request's channel.
  dispatch-own :
      (topic : String) (n : Fields F) (t : Table F H)
      → is_empty id ≡ false
      → get_string n "correlation_id" ≡ id
      → Waits id ch t
      → held (dispatch topic n t).channels ch ≡ some n
  unfolding dispatch offer held
  dispatch-own topic n t real own w =
      let listed : lookup t.pending (get_string n "correlation_id") ≡ some ch = rw own w.listed in
      let named : is_empty (get_string n "correlation_id") ≡ false = rw own real in
      rw (named, listed, w.vacant) (ground arith)

  dispatch-other :
      (topic : String) (n : Fields F) (t : Table F H)
      → get_string n "correlation_id" ≢ id
      → Waits id ch t
      → Waits id ch (dispatch topic n t)
  unfolding dispatch
  dispatch-other topic n t foreign w =
      let corr = get_string n "correlation_id" in
      route-other (if is_empty corr then none else lookup t.pending corr) topic n t
        (λ e. foreign (
          w.alone corr (elim (Bool-cases (is_empty corr)) [
            | inl blank ↦ absurd (ground (arith, blank, e))
            | inr named ↦ ground (arith, named, e)
          ])))
        foreign w

  act-Tied :
      (a : Action F H) (got : Option (Fields F)) (t : Table F H)
      → is_empty id ≡ false
      → Foreign id a
      → Tied id ch got t
      → Tied id ch (received id got a) (act a t)
  unfolding act close_request
  act-Tied a (some m) t real foreign w = act-keeps a m t w
  act-Tied (arrives topic none) none t real foreign w = w
  act-Tied (arrives topic (some n)) none t real foreign w =
      elim (Bool-cases (get_string n "correlation_id" == id)) [
        | inl own ↦ rw own (dispatch-own topic n t real ((eq_iff _ id).0 own) w)
        | inr differs ↦ rw differs (
            dispatch-other topic n t
              (λ e. ground (arith, differs, eq_iff (get_string n "correlation_id") id, e)) w)
      ]
  act-Tied (opens k) none t real foreign w = open-Waits id ch k t foreign w
  act-Tied (closes k) none t real foreign w = remove-Waits id ch k t foreign w
  act-Tied (subscribes topic k) none t real foreign w = record {
    vacant = w.vacant;
    listed = w.listed;
    alone = w.alone;
    made = w.made;
  }
  act-Tied (unsubscribes topic) none t real foreign w = record {
    vacant = w.vacant;
    listed = w.listed;
    alone = w.alone;
    made = w.made;
  }

  act_all-Tied :
      (as' : List (Action F H)) (got : Option (Fields F)) (t : Table F H)
      → is_empty id ≡ false
      → All (Foreign id) as'
      → Tied id ch got t
      → Tied id ch (received_all id got as') (act_all as' t)
  unfolding act_all
  act_all-Tied [] got t real foreign w = w
  act_all-Tied (a ∷ as') got t real foreign w =
      act_all-Tied as' (received id got a) (act a t) real foreign.1
        (act-Tied a got t real foreign.0 w)

  wait-awaited :
      (timed_out : String) (ms : List (Moment F H)) (got : Option (Fields F)) (t : Table F H)
      → is_empty id ≡ false
      → All (ForeignMoment id) ms
      → Tied id ch got t
      → (wait timed_out ch ms t).0 ≡ awaited timed_out id got ms
  unfolding wait
  wait-awaited timed_out [] got t real foreign w = refl
  wait-awaited timed_out (other a ∷ ms) got t real foreign w =
      wait-awaited timed_out ms (received id got a) (act a t) real foreign.1
        (act-Tied a got t real foreign.0 w)
  wait-awaited timed_out (looks ∷ ms) none t real foreign w =
      ap (λ o. (take o t (wait timed_out ch ms t)).0) w.vacant
      ∙ wait-awaited timed_out ms none t real foreign.1 w
  wait-awaited timed_out (looks ∷ ms) (some m) t real foreign w =
      ap (λ o. (take o t (wait timed_out ch ms t)).0) w
  wait-awaited timed_out (done e ∷ ms) got t real foreign w = refl

module _ {F H : Type 0} where
  -- Channels that are not made yet are not in the table.
  pub record Numbered (t : Table F H) : Type 0 where
    pub listed : (k : String) (c : ℕ) → lookup t.pending k ≡ some c → c < t.next
    pub filled : (c : ℕ) → t.next ≤ c → held t.channels c ≡ none

  opened-Waits : (id : String) (t : Table F H) → Numbered t → Waits id t.next (open_request id t)
  unfolding open_request lookup store
  opened-Waits id t n = record {
    vacant = n.filled t.next (omega arith);
    listed = ground (arith, eq_iff id id);
    alone = λ k e. elim (Bool-cases (id == k)) [
      | inl same ↦ sym ((eq_iff id k).0 same)
      | inr differs ↦ absurd (
          ground (
            arith,
            differs,
            n.listed k t.next (ground (arith, differs, e, lookup-remove t.pending id k)),
          ))
    ];
    made = omega arith;
  }

  await_answer-published :
      (c : Course F H) (id : String) (ch : ℕ) (o : Option String) (got : Option (Fields F))
      (t : Table F H)
      → is_empty id ≡ false
      → All (ForeignMoment id) c.moments
      → Tied id ch got t
      → (await_answer c ch o t).0 ≡ published_then o (awaited c.timed_out id got c.moments)
  unfolding await_answer
  await_answer-published c id ch (some e) got t real foreign w = refl
  await_answer-published c id ch none got t real foreign w =
      wait-awaited id ch c.timed_out c.moments got t real foreign w

  pub exchange-first_reply :
      (c : Course F H) (id : String) (t : Table F H)
      → is_empty id ≡ false
      → Numbered t
      → All (Foreign id) c.during
      → All (ForeignMoment id) c.moments
      → (exchange c id t).0 ≡ first_reply c id
  unfolding exchange
  exchange-first_reply c id t real n before after =
      await_answer-published c id t.next c.refused _ _ real after
        (act_all-Tied id t.next c.during none (open_request id t) real before (opened-Waits id t n))

  -- However it ends, the request leaves no entry of its identifier behind.
  pub exchange-closes :
      (c : Course F H) (id : String) (t : Table F H) → lookup (exchange c id t).1.pending id ≡ none
  unfolding exchange close_request
  exchange-closes c id t = ground (
    arith,
    lookup-remove (await_answer c t.next c.refused (act_all c.during (open_request id t))).1.pending
        id id,
    eq_iff id id,
  )
