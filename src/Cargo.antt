-- ===== src/Cargo.antt =====
-- cargo/src/cargo.go: the cargo bay.
pub mod Door
use drones.Common.{
  String, Bool, true, false, Option, none, some, List, [], ◌∷◌, if◌then◌else◌, ◌&&◌, not,
}
use drones.Message.{Fields, fields, str, bool, float64}
use drones.Bus.{M, pure, gets, modify, now, ◌>>=◌, ◌>>◌}
use drones.Floats.{Floats}
use drones.Component.{ProxyClient, is_trusted_sender, log_to_journal}

pub data State : Type 0 where
  closed open_ : State

abbrev pub state_text : State → String
state_text closed = "CLOSED"
state_text open_ = "OPEN"

abbrev pub same_state : State → State → Bool
same_state closed closed = true
same_state open_ open_ = true
same_state _ _ = false

-- Cargo, with what its audit logger holds
pub record Cargo (F : Type 0) : Type 0 where
  pub proxy : ProxyClient
  pub journal_topic : String
  pub state : State
  pub last_change_ts : F

module _ {F : Type 0} (fl : Floats F) where
  -- New: the state that it gives the component at time t
  unfoldable pub new_cargo : ProxyClient → String → F → Cargo F
  new_cargo proxy journal_topic t = record {
    proxy = proxy;
    journal_topic = journal_topic;
    state = closed;
    last_change_ts = t;
  }

  abbrev pub log_state_change : State → State → M F (Cargo F) (Unit {0})
  log_state_change old_state new_state = do
    c ← gets (λ c. c)
    log_to_journal c.proxy c.journal_topic "cargo" "CARGO_STATE_CHANGED" (
        fields (
          ("old_state", str (state_text old_state))
          ∷ ("new_state", str (state_text new_state))
          ∷ []))

  unfoldable pub set_state : State → M F (Cargo F) (Unit {0})
  set_state new_state = do
    old ← gets (λ c. c.state)
    t ← now
    modify λ c. record c { state = new_state; last_change_ts = fl.nanos t }
    if same_state old new_state then pure tt else log_state_change old new_state

  abbrev reply : M F (Cargo F) (Option (Fields F))
  reply = do
    state ← gets (λ c. c.state)
    pure (some (fields (("ok", bool true) ∷ ("state", str (state_text state)) ∷ [])))

  unfoldable pub handle_open : Fields F → M F (Cargo F) (Option (Fields F))
  unfolding set_state
  handle_open message =
      if not (is_trusted_sender message "security_monitor")
      then pure none
      else do set_state open_; reply

  unfoldable pub handle_close : Fields F → M F (Cargo F) (Option (Fields F))
  unfolding set_state
  handle_close message =
      if not (is_trusted_sender message "security_monitor")
      then pure none
      else do set_state closed; reply

  unfoldable pub handle_get_state : Fields F → M F (Cargo F) (Option (Fields F))
  handle_get_state message = do
    c ← gets (λ c. c)
    pure (
        some (
          fields (
            ("state", str (state_text c.state))
            ∷ ("last_change_ts", float64 c.last_change_ts)
            ∷ [])))
