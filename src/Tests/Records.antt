-- ===== src/Tests/Records.antt =====
-- The journal, the regulator, the environment file and the deliveries on small inputs.
use mathlib.Core.List.{Memᴰ}
use drones.Common.{
  ◌≤◌, ℕ, String, append, true, false, Option, none, some, List, [], ◌∷◌, ◌==◌, ◌≡◌, refl, itoa,
  is_empty, arith, trim_space, if◌then◌else◌,
}
use drones.Message.{Fields, Value, pos, str, fields, only, get, get_map}
use drones.Bus.{Result, ok, Run}
use drones.Component.{is_trusted_sender}
use drones.Analytics.{Http}
use drones.Journal.{Journal, Disk, handle_log_event}
use drones.Journal.Appending.{
  Input, log_event, journey, line_at, handle_log_event-acknowledged, journey-Grows,
}
use drones.Certification.Regulator.{
  Options, Answers, FirmwareCertResult, FirmwareCertificate, request_firmware_cert,
}
use drones.Certification.Verdict.{Certifies, request_firmware_cert-Certifies}
use drones.Certification.EnvFile.{replace_line}
use drones.Certification.Lookup.{setting, certificate_lines, replace_line-setting}
use drones.Delivery.{new_drone}
use drones.Delivery.Counting
use drones.Delivery.Counting.{Counted, orders, last_order, journey-Counted}
use drones.Tests.{silent_env, from_monitor}

abbrev disk : Disk
disk = record { no_directory = none; not_opened = none; cut_short = none }

abbrev http : Http
http = record { not_marshalled = none; no_request = none; not_done = none; status = 200 }

-- A text for a value.
abbrev plain : Value ℕ → Result String
plain v = ok "{}"

abbrev journal : Run ℕ (Journal ℕ String)
journal = record {
  state = record {
    analytics = record {
      enabled = true;
      base_url = "http://a";
      api_key = "k";
      timeout_sec = 2;
      api_version = "1.1.0";
      drone = "delivery";
      drone_id = pos 1;
      service = "delivery";
      service_id = pos 1;
    };
    file = "{}\n";
    events = [];
    logs = [];
  };
  events = [];
}

abbrev payload : Fields ℕ
payload = fields (("event", str "LIMITER_EMERGENCY") ∷ ("source", str "limiter") ∷ [])

handle_log_event-acknowledged_example :
    (is_trusted_sender (from_monitor payload) "security_monitor" ≡ true)
    × (p : Fields ℕ) × (get_map (from_monitor payload) "payload" ≡ some p)
    × (disk.no_directory ≡ none)
    × (disk.not_opened ≡ none)
    × (disk.cut_short ≡ none)
    × ((handle_log_event plain disk http (from_monitor payload) silent_env journal).1.state.file
        ≡ append "{}\n" (line_at plain silent_env journal (from_monitor payload) p))
unfolding handle_log_event get
handle_log_event-acknowledged_example =
    handle_log_event-acknowledged plain silent_env disk http (from_monitor payload) journal refl

abbrev logged : List (Input ℕ)
logged = log_event disk http (from_monitor payload) ∷ []

journey-Grows_example :
    (t : String) × ((journey plain (λ v. none) logged silent_env journal).1.state.file
      ≡ append "{}\n" t)
journey-Grows_example = journey-Grows plain (λ v. none) silent_env logged journal

abbrev options : Options
options = record {
  kafka_bootstrap = "";
  developer_id = "";
  drone_type = "";
  repository_url = "https://r";
  commit_hash = "c0ffee";
  version = "1";
  timeout = 0;
}

abbrev certificate : Fields ℕ
certificate = only "certificate_id" (str "FW-1")

abbrev answers : Answers ℕ
answers = record {
  not_marshalled = none;
  no_consumer = none;
  no_producer = none;
  not_sent = none;
  consumed = ok (
      none
      ∷ some
          (record { request_id = "req-7"; status = " certified "; certificate = some certificate })
      ∷ []);
  timed_out = "firmware certification timed out after 10m0s";
}

abbrev issued : FirmwareCertificate ℕ
issued = record {
  certificate_id = "FW-1";
  status = "CERTIFIED";
  security_goals_checked = [];
  digital_signature = "";
  raw = certificate;
}

request_firmware_cert-Certifies_example :
    (is_empty options.repository_url ≡ false)
    × (is_empty options.commit_hash ≡ false)
    × (msgs : List (Option (FirmwareCertResult ℕ))) × (res : FirmwareCertResult ℕ)
    × (answers.consumed ≡ ok msgs)
    × Memᴰ (some res) msgs
    × (res.request_id ≡ append "req-" (itoa 7))
    × Certifies res issued
unfolding request_firmware_cert get
request_firmware_cert-Certifies_example =
    request_firmware_cert-Certifies options answers 7 issued refl

abbrev env_lines : List String
env_lines = "# drone" ∷ "ORVD_CERTIFICATE_ID = old" ∷ "BROKER_TYPE=mqtt" ∷ []

once : certificate_lines env_lines ≤ 1
unfolding certificate_lines trim_space
once = omega arith

replace_line-setting_example :
    setting (replace_line env_lines (trim_space " FW-1 ")) "ORVD_CERTIFICATE_ID" ≡ (
      if "ORVD_CERTIFICATE_ID" == "ORVD_CERTIFICATE_ID"
      then some (trim_space " FW-1 ")
      else setting env_lines "ORVD_CERTIFICATE_ID")
replace_line-setting_example = replace_line-setting " FW-1 " env_lines "ORVD_CERTIFICATE_ID" once

-- Of two lines for the certificate's key only the first is replaced.
twice :
    replace_line ("ORVD_CERTIFICATE_ID=a" ∷ "ORVD_CERTIFICATE_ID=b" ∷ []) "c"
    ≡ "ORVD_CERTIFICATE_ID=c" ∷ "ORVD_CERTIFICATE_ID=b" ∷ []
unfolding replace_line trim_space
twice = refl

abbrev orders_in : List (Counting.Input ℕ)
orders_in =
    Counting.deliver_package (from_monitor (only "destination" (str "north")))
    ∷ Counting.get_delivery_status (from_monitor payload)
    ∷ Counting.deliver_package (from_monitor (only "destination" (str "south")))
    ∷ []

journey-Counted_example :
    Counted 2
      (last_order none orders_in)
      (Counting.journey orders_in silent_env
        (record { state = new_drone "dd-1" "one"; events = [] })).1.state
unfolding get
journey-Counted_example = journey-Counted "dd-1" "one" orders_in silent_env (omega arith)
