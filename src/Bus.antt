-- ===== src/Bus.antt =====
-- bus/src/bus.go, as a component sees it. A broker, the clock and the other goroutines are the
-- environment: an answer may depend on all that the component did before.
pub mod Keeps
use drones.Common.{ℕ, ◌≡◌, refl, String, Bool, Option, some, List, ◌∷◌, is_empty, if◌then◌else◌}
use drones.Message.{Fields, str, bool, obj, entry, empty, get_string}

-- A Go result with an error.
pub data Result (A : Type 0) : Type 0 where
  ok : A → Result A
  err : String → Result A

-- v, err := e; if err != nil { return err }
infixl 5 ◌>>=?◌
abbrev pub ◌>>=?◌ : {A B : Type 0} → Result A → (A → Result B) → Result B
ok a >>=? f = f a
err e >>=? f = err e

pub >>=?-eq-ok :
    {A B : Type 0} (m : Result A) (f : A → Result B) {b : B}
    → (m >>=? f) ≡ ok b
    → (a : A) × (m ≡ ok a) × (f a ≡ ok b)
>>=?-eq-ok (ok a) f h = (a, refl, h)
>>=?-eq-ok (err e) f h = cc

-- What a component does that others can see, and its looks at the clock.
pub data Event (F : Type 0) : Type 0 where
  requested : String → Fields F → Event F
  published : String → Fields F → Event F
  clock_read : Event F

-- request and publish are the broker's answers, now is time.Now().UnixNano(), and meanwhile is what
-- the other goroutines do to the component's state while a request waits. Each is given the events
-- so far, the latest first. timestamp is Format(time.RFC3339Nano) of such a time in UTC, and
-- date_time is Format(time.RFC3339).
pub record Env (F S : Type 0) : Type 0 where
  pub request : List (Event F) → String → Fields F → Result (Fields F)
  pub publish : List (Event F) → String → Fields F → Option String
  pub now : List (Event F) → ℕ
  pub timestamp : ℕ → String
  pub date_time : ℕ → String
  pub meanwhile : List (Event F) → S → S

pub record Run (F S : Type 0) : Type 0 where
  pub state : S
  pub events : List (Event F)

abbrev pub M : Type 0 → Type 0 → Type 0 → Type 0
M F S A = Env F S → Run F S → A × Run F S

module _ {F S : Type 0} where
  abbrev pub pure : {A : Type 0} → A → M F S A
  pure a env r = (a, r)

  infixl 5 ◌>>=◌ ◌>>◌
  abbrev pub ◌>>=◌ : {A B : Type 0} → M F S A → (A → M F S B) → M F S B
  ◌>>=◌ m f env r = let p = m env r in f p.0 env p.1

  abbrev pub ◌>>◌ : {A B : Type 0} → M F S A → M F S B → M F S B
  ◌>>◌ m k env r = k env (m env r).1

  -- reads and writes of the fields, inside a critical section
  abbrev pub gets : {A : Type 0} → (S → A) → M F S A
  gets f env r = (f r.state, r)

  abbrev pub modify : (S → S) → M F S (Unit {0})
  modify f env r = (tt, record r { state = f r.state })

  -- Bus.Publish
  abbrev pub publish : String → Fields F → M F S (Option String)
  publish topic msg env r =
      (env.publish r.events topic msg, record r { events = published topic msg ∷ r.events })

  -- Bus.Request
  abbrev pub request : String → Fields F → M F S (Result (Fields F))
  request topic msg env r = (
    env.request r.events topic msg,
    record { state = env.meanwhile r.events r.state; events = requested topic msg ∷ r.events },
  )

  -- time.Now()
  abbrev pub now : M F S ℕ
  now env r = (env.now r.events, record r { events = clock_read ∷ r.events })

  -- time.Now().UTC().Format(time.RFC3339Nano)
  abbrev pub now_text : M F S String
  now_text env r = (env.timestamp (env.now r.events), record r { events = clock_read ∷ r.events })

  -- time.Now().UTC().Format(time.RFC3339)
  abbrev pub date_time_now : M F S String
  date_time_now env r =
      (env.date_time (env.now r.events), record r { events = clock_read ∷ r.events })

-- the map that sdk.CreateResponse builds
unfoldable pub response :
    {F : Type 0} → String → Fields F → String → Bool → String → String → Fields F
response correlation_id payload sender success timestamp err_msg = entry "action" (str "response") (
    entry "payload" (obj payload) (
      entry "sender" (str sender) (
        entry "correlation_id" (str correlation_id) (
          entry "success" (bool success) (
            entry "timestamp" (str timestamp)
              (if is_empty err_msg then empty else entry "error" (str err_msg) empty))))))

module _ {F S : Type 0} where
  unfoldable pub create_response : String → Fields F → String → Bool → String → M F S (Fields F)
  unfolding response
  create_response correlation_id payload sender success err_msg = do
    timestamp ← now_text
    pure (response correlation_id payload sender success timestamp err_msg)

  -- Respond
  unfoldable pub respond : Fields F → Fields F → String → Bool → String → M F S (Option String)
  unfolding create_response
  respond original payload sender success err_msg =
      if is_empty (get_string original "reply_to")
      then pure (some "cannot respond: no reply_to in message")
      else do
        resp ← create_response (get_string original "correlation_id") payload sender success err_msg
        publish (get_string original "reply_to") resp
