-- ===== src/Analytics.antt =====
-- sdk/src/analytics.go: the client of the analytics service. F is float64 and L is the type of the
-- logs of the telemetry. What the package net/http and json.Marshal answer is an argument.
use Prim.Native.Char.{code}
use drones.Common.{
  ℕ, zero, suc, String, append, Bool, false, not, ◌&&◌, ◌||◌, Option, none, some, List, [], ◌∷◌,
  ◌==◌, eqb, itoa, natural, trim_space, to_lower, is_empty, if◌then◌else◌,
}
use drones.Message.{ℤ, pos}
use drones.Floats.{Floats, lit}
use drones.Config.{trimmed_or}

pub record EventLog : Type 0 where
  pub api_version : String
  pub timestamp : ℕ
  pub event_type : String
  pub service : String
  pub service_id : ℤ
  pub severity : String
  pub message : String

pub record AnalyticsClient (F : Type 0) : Type 0 where
  pub enabled : Bool
  pub base_url : String
  pub api_key : String
  pub timeout_sec : F
  pub api_version : String
  pub drone : String
  pub drone_id : ℤ
  pub service : String
  pub service_id : ℤ

unfoldable pub parse_bool : String → Bool
unfolding trim_space to_lower
parse_bool s = let t = to_lower (trim_space s) in t == "1" || t == "true" || t == "yes" || t == "on"

-- a number above zero, or the fallback
abbrev positive_or : Option ℕ → ℤ → ℤ
positive_or none fallback = fallback
positive_or (some zero) fallback = fallback
positive_or (some (suc n)) fallback = pos (suc n)

unfoldable pub parse_int64 : String → ℤ → ℤ
unfolding natural trim_space
parse_int64 s fallback = positive_or (natural (trim_space s)) fallback

-- strings.TrimRight(s, "/")
unfoldable pub trim_slashes : String → String
trim_slashes String.[] = ""
trim_slashes (String.◌∷◌ c s) =
    let rest = trim_slashes s in
    if eqb (code c) b'/' && is_empty rest then "" else String.◌∷◌ c rest

-- A posting: the address, the key and the logs.
pub record Posting (A : Type 0) : Type 0 where
  pub url : String
  pub key : String
  pub logs : List A

-- An error of json.Marshal, of NewRequestWithContext and of Do, and the status of the response.
pub record Http : Type 0 where
  pub not_marshalled : Option String
  pub no_request : Option String
  pub not_done : Option String
  pub status : ℕ

module _ {F : Type 0} (fl : Floats F) (parse_float_64 : String → Option F) where
  abbrev above_zero : Option F → F → F
  above_zero none fallback = fallback
  above_zero (some v) fallback = if fl.lt (lit fl 0) v then v else fallback

  unfoldable pub parse_float : String → F → F
  unfolding trim_space
  parse_float s fallback = above_zero (parse_float_64 (trim_space s)) fallback

  -- NewAnalyticsClientFromEnv, given os.Getenv
  unfoldable pub client_from_env : (String → String) → AnalyticsClient F
  unfolding parse_bool trim_slashes parse_float parse_int64
  client_from_env getenv =
      let base_url = trim_slashes (trim_space (getenv "ANALYTICS_BASE_URL")) in
      let api_key = trim_space (getenv "ANALYTICS_API_KEY") in
      record {
        enabled =
            if not (parse_bool (getenv "ANALYTICS_ENABLED"))
              || is_empty base_url
              || is_empty api_key
            then false
            else parse_bool (getenv "ANALYTICS_ENABLED");
        base_url = base_url;
        api_key = api_key;
        timeout_sec = parse_float (getenv "ANALYTICS_TIMEOUT_S") (lit fl 2);
        api_version = trimmed_or (getenv "ANALYTICS_API_VERSION") "1.1.0";
        drone = trimmed_or (getenv "ANALYTICS_DRONE") "delivery";
        drone_id = parse_int64 (getenv "ANALYTICS_DRONE_ID") (pos 1);
        service = trimmed_or (getenv "ANALYTICS_SERVICE") "delivery";
        service_id = parse_int64 (getenv "ANALYTICS_SERVICE_ID") (pos 1);
      }

module _ {F A : Type 0} where
  -- what postJSON answers, and what it posts: nothing where it fails before Do
  abbrev done_with : AnalyticsClient F → String → List A → Http → Option String × List (Posting A)
  done_with c path logs h =
      let sent = record { url = append c.base_url path; key = c.api_key; logs = logs } ∷ [] in
      elim h.not_done [
        | some e ↦ (some e, sent)
        | none ↦
            if eqb h.status 200 || eqb h.status 207
            then (none, sent)
            else (some (append "analytics status " (itoa h.status)), sent)
      ]

  unfoldable pub post_json :
      AnalyticsClient F → String → List A → Http → Option String × List (Posting A)
  unfolding itoa
  post_json c path logs h = elim h.not_marshalled [
    | some e ↦ (some e, [])
    | none ↦ elim h.no_request [ some e ↦ (some e, []) | none ↦ done_with c path logs h ]
  ]

  -- PostTelemetry and PostEvent of a client that is not nil, at the path of each
  unfoldable pub post_logs :
      AnalyticsClient F → String → List A → Http → Option String × List (Posting A)
  unfolding post_json
  post_logs c path [] h = (none, [])
  post_logs c path (l ∷ ls) h = if not c.enabled then (none, []) else post_json c path (l ∷ ls) h
