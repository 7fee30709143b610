-- ===== src/Broker/Table.antt =====
-- The maps of a Bus: pending, from correlation identifiers to channels, and handlers, from topics
-- to handlers. H is the type of handlers; a call of one is recorded with its message.
use drones.Common.{
  ℕ, ◌+◌, String, Option, none, some, List, [], ◌∷◌, ◌++◌, ◌==◌, eqb, is_empty, if◌then◌else◌,
}
use drones.Message.{Fields, str, get_string, put, copy_into, empty}
use drones.Bus.{Result, ok, err}

module _ {A : Type 0} where
  unfoldable pub lookup : List (String × A) → String → Option A
  lookup [] k = none
  lookup ((j, v) ∷ m) k = if j == k then some v else lookup m k

  -- delete(m, k)
  unfoldable pub remove : List (String × A) → String → List (String × A)
  remove [] k = []
  remove ((j, v) ∷ m) k = let rest = remove m k in if j == k then rest else (j, v) ∷ rest

  -- m[k] = v
  unfoldable pub store : List (String × A) → String → A → List (String × A)
  unfolding remove
  store m k v = (k, v) ∷ remove m k

  -- the keys, as a range over the map meets them
  abbrev pub keys : List (String × A) → List String
  keys [] = []
  keys ((k, v) ∷ m) = k ∷ keys m

-- The channels are numbered in the order of their making; each has one place, which channels holds
-- where it is taken.
pub record Table (F H : Type 0) : Type 0 where
  pub pending : List (String × ℕ)
  pub handlers : List (String × H)
  pub channels : List (ℕ × Fields F)
  pub next : ℕ
  pub calls : List (H × Fields F)

unfoldable pub held : {F : Type 0} → List (ℕ × Fields F) → ℕ → Option (Fields F)
held [] ch = none
held ((c, m) ∷ cs) ch = if eqb c ch then some m else held cs ch

module _ {F H : Type 0} where
  abbrev pub new_table : Table F H
  new_table = record { pending = []; handlers = []; channels = []; next = 0; calls = [] }

  -- if h := b.handlers[topic]; h != nil { h(m) }
  unfoldable pub call_handler : Fields F → Option H → Table F H → Table F H
  call_handler m none t = t
  call_handler m (some h) t = record t { calls = t.calls ++ ((h, m) ∷ []) }

  -- select { case ch <- m: default: }, given what the channel holds
  abbrev pub place : Option (Fields F) → ℕ → Fields F → Table F H → Table F H
  place (some n) ch m t = t
  place none ch m t = record t { channels = (ch, m) ∷ t.channels }

  unfoldable pub offer : ℕ → Fields F → Table F H → Table F H
  unfolding held
  offer ch m t = place (held t.channels ch) ch m t

  -- what becomes of a message that was read, given the channel that waits for it
  abbrev pub route : String → Fields F → Option ℕ → Table F H → Table F H
  route topic m none t = call_handler m (lookup t.handlers topic) t
  route topic m (some ch) t =
      offer ch m (record t { pending = remove t.pending (get_string m "correlation_id") })

  -- as the default publish handler of the MQTT client has it
  unfoldable pub dispatch : String → Fields F → Table F H → Table F H
  unfolding lookup remove call_handler offer
  dispatch topic m t =
      route topic m
        (if is_empty (get_string m "correlation_id")
          then none
          else lookup t.pending (get_string m "correlation_id"))
        t

  -- a message that json.Unmarshal does not read is dropped
  abbrev pub dispatch_read : String → Option (Fields F) → Table F H → Table F H
  dispatch_read topic none t = t
  dispatch_read topic (some m) t = dispatch topic m t

  -- ch := make(chan map[string]interface{}, 1); b.pending[correlationID] = ch
  unfoldable pub open_request : String → Table F H → Table F H
  unfolding store
  open_request id t = record t { pending = store t.pending id t.next; next = t.next + 1 }

  -- the deferred delete
  unfoldable pub close_request : String → Table F H → Table F H
  unfolding remove
  close_request id t = record t { pending = remove t.pending id }

-- the message that Request sends
unfoldable pub request_message : {F : Type 0} → Fields F → String → String → Fields F
unfolding copy_into put
request_message message id reply_topic =
    put (put (copy_into empty message) "correlation_id" (str id)) "reply_to" (str reply_topic)

-- What the other goroutines of the program do to the table while a request waits: messages of a
-- topic that arrive, read or not; other requests; and handlers that come and go.
pub data Action (F H : Type 0) : Type 0 where
  arrives : String → Option (Fields F) → Action F H
  opens closes : String → Action F H
  subscribes : String → H → Action F H
  unsubscribes : String → Action F H

-- The select of Request, in the order of time: something else happens, the request looks at its
-- channel, or its context is done. At the end of the list the time is up.
pub data Moment (F H : Type 0) : Type 0 where
  other : Action F H → Moment F H
  looks : Moment F H
  done : String → Moment F H

module _ {F H : Type 0} where
  unfoldable pub act : Action F H → Table F H → Table F H
  unfolding dispatch open_request close_request remove store
  act (arrives topic m) t = dispatch_read topic m t
  act (opens id) t = open_request id t
  act (closes id) t = close_request id t
  act (subscribes topic h) t = record t { handlers = store t.handlers topic h }
  act (unsubscribes topic) t = record t { handlers = remove t.handlers topic }

  unfoldable pub act_all : List (Action F H) → Table F H → Table F H
  unfolding act
  act_all [] t = t
  act_all (a ∷ as') t = act_all as' (act a t)

  -- resp := <-ch, if the channel holds a message
  abbrev pub take :
      Option (Fields F) → Table F H → Result (Fields F) × Table F H → Result (Fields F) × Table F H
  take (some m) t later = (ok m, t)
  take none t later = later

  unfoldable pub wait : String → ℕ → List (Moment F H) → Table F H → Result (Fields F) × Table F H
  unfolding act held
  wait timed_out ch [] t = (err timed_out, t)
  wait timed_out ch (other a ∷ ms) t = wait timed_out ch ms (act a t)
  wait timed_out ch (looks ∷ ms) t =
      let rest = wait timed_out ch ms t in take (held t.channels ch) t rest
  wait timed_out ch (done e ∷ ms) t = (err e, t)

-- What a request meets: the goroutines that act while the message is being published, the error of
-- Publish, the moments after it, and the text of the time-out.
pub record Course (F H : Type 0) : Type 0 where
  pub during : List (Action F H)
  pub refused : Option String
  pub moments : List (Moment F H)
  pub timed_out : String

module _ {F H : Type 0} where
  -- Request from the publication on
  unfoldable pub await_answer :
      Course F H → ℕ → Option String → Table F H → Result (Fields F) × Table F H
  unfolding wait
  await_answer c ch (some e) t = (err e, t)
  await_answer c ch none t = wait c.timed_out ch c.moments t

  -- Request from the making of the channel on, with the deferred delete at its end
  unfoldable pub exchange : Course F H → String → Table F H → Result (Fields F) × Table F H
  unfolding open_request close_request act_all await_answer
  exchange c id t =
      let answered = await_answer c t.next c.refused (act_all c.during (open_request id t)) in
      (answered.0, close_request id answered.1)
