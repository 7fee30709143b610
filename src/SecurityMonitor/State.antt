-- ===== src/SecurityMonitor/State.antt =====
-- The state of the security monitor (security_monitor.go).
use drones.Common.{
  ℕ, String, append, Bool, true, false, Option, none, some, List, [], ◌∷◌, ◌==◌, is_empty,
  trim_space, itoa, if◌then◌else◌, not, ◌&&◌,
}
use drones.Bus.{M, pure, modify, now, ◌>>=◌}
use drones.Config.{Config, broker_topic_for}
use drones.SecurityMonitor.Policy.{PolicyKey, clone_policy_map}

pub data Mode : Type 0 where
  normal isolated : Mode

abbrev pub mode_text : Mode → String
mode_text normal = "NORMAL"
mode_text isolated = "ISOLATED"

abbrev pub is_isolated : Mode → Bool
is_isolated isolated = true
is_isolated normal = false

-- SafetyState. Times are nanoseconds; version is the bit pattern of an int64.
pub record SafetyState : Type 0 where
  pub mode : Mode
  pub reason : String
  pub source : String
  pub transition_id : String
  pub version : ℕ
  pub activated_at : ℕ
  pub last_transition_at : ℕ

-- SecurityMonitor. A heartbeat timeout of 0 is "no watchdog".
pub record Monitor : Type 0 where
  pub cfg : Config
  pub policies : List PolicyKey
  pub normal_policies : List PolicyKey
  pub policy_admin : String
  pub safety_state : SafetyState
  pub journal_topic : String
  pub heartbeat_timeout : ℕ
  pub failsafe_action : String
  pub last_seen_by_sender : List (String × ℕ)

-- SecurityMonitorComponentID, which New gives to the base component
abbrev pub component_id : String
component_id = "security_monitor"

-- fmt.Sprintf("safety-%d", now.UnixNano())
abbrev pub transition_id_at : ℕ → String
transition_id_at t = append "safety-" (itoa t)

-- newInitialSafetyState
abbrev pub initial_safety_state : ℕ → SafetyState
initial_safety_state t = record {
  mode = normal;
  reason = "startup";
  source = component_id;
  transition_id = transition_id_at t;
  version = 1;
  activated_at = t;
  last_transition_at = t;
}

-- New, after the environment's texts are read and parsed
unfoldable pub new_monitor : Config → List PolicyKey → String → ℕ → String → ℕ → Monitor
unfolding clone_policy_map broker_topic_for
new_monitor cfg initial_policies policy_admin heartbeat_timeout failsafe_action t = record {
  cfg = cfg;
  policies = clone_policy_map initial_policies;
  normal_policies = clone_policy_map initial_policies;
  policy_admin = policy_admin;
  safety_state = initial_safety_state t;
  journal_topic = broker_topic_for cfg "journal";
  heartbeat_timeout = heartbeat_timeout;
  failsafe_action = failsafe_action;
  last_seen_by_sender = [];
}

-- a time of the map of senders
unfoldable pub last_seen : List (String × ℕ) → String → Option ℕ
last_seen [] sender = none
last_seen ((s, t) ∷ rest) sender = if s == sender then some t else last_seen rest sender

module _ {F : Type 0} where
  -- recordSenderSeen
  unfoldable pub record_sender_seen : String → M F Monitor (Unit {0})
  record_sender_seen sender = if is_empty (trim_space sender) then pure tt else do
    t ← now
    modify λ sm. record sm { last_seen_by_sender = (trim_space sender, t) ∷ sm.last_seen_by_sender }

-- canManagePolicies
abbrev pub can_manage_policies : Monitor → String → Bool
can_manage_policies sm sender = not (is_empty sm.policy_admin) && sender == sm.policy_admin
