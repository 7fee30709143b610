-- ===== src/Certification/Regulator.antt =====
-- certification/client.go and types.go: the request to the regulator and the reading of its answer.
-- What the Kafka client answers is an argument.
use drones.Common.{
  ℕ, zero, suc, String, append, not, Option, none, some, List, [], ◌∷◌, ◌==◌, itoa, to_upper,
  trim_space, is_empty, if◌then◌else◌,
}
use drones.Message.{Fields, Value, Items, nil, cons, arr, str, fields, get, get_string}
use drones.Bus.{Result, ok, err, ◌>>=?◌}

pub record FirmwareCertRequest (F : Type 0) : Type 0 where
  pub request_id : String
  pub timestamp : ℕ
  pub developer_id : String
  pub drone_type : String
  pub firmware : Fields F

-- FirmwareCertResult, less its time and its errors, which nothing reads
pub record FirmwareCertResult (F : Type 0) : Type 0 where
  pub request_id : String
  pub status : String
  pub certificate : Option (Fields F)

pub record FirmwareCertificate (F : Type 0) : Type 0 where
  pub certificate_id : String
  pub status : String
  pub security_goals_checked : List String
  pub digital_signature : String
  pub raw : Fields F

-- Options; the time-out is a number of nanoseconds, 0 where it is not above zero
pub record Options : Type 0 where
  pub kafka_bootstrap : String
  pub developer_id : String
  pub drone_type : String
  pub repository_url : String
  pub commit_hash : String
  pub version : String
  pub timeout : ℕ

abbrev or_default : String → String → String
or_default s d = if is_empty s then d else s

-- the defaults of RequestFirmwareCert
unfoldable pub with_defaults : Options → Options
with_defaults o = record o {
  timeout = elim o.timeout [ zero ↦ 600000000000 | suc n ↦ suc n ];
  kafka_bootstrap = or_default o.kafka_bootstrap "localhost:9092";
  developer_id = or_default o.developer_id "AMCP-Drones";
  drone_type = or_default o.drone_type "DeliveryDrone-X2";
}

-- if len(goals) == 0 { goals = … }
abbrev or_goals : List String → List String → List String
or_goals [] other = other
or_goals (g ∷ gs) other = g ∷ gs

module _ {F : Type 0} where
  -- the request, given the times of the two calls of time.Now()
  unfoldable pub request_of : Options → ℕ → ℕ → FirmwareCertRequest F
  unfolding itoa
  request_of o first_clock clock = record {
    request_id = append "req-" (itoa first_clock);
    timestamp = clock;
    developer_id = o.developer_id;
    drone_type = o.drone_type;
    firmware = fields (
        ("repository_url", str o.repository_url)
        ∷ ("commit_hash", str o.commit_hash)
        ∷ ("version", str o.version)
        ∷ []);
  }

  -- the items of an []interface{} that are texts and not empty
  unfoldable pub texts_of : Items F → List String
  texts_of nil = []
  texts_of (cons (str s) items) = let rest = texts_of items in if is_empty s then rest else s ∷ rest
  texts_of (cons _ items) = texts_of items

  -- extractStringList; a value that JSON gives is never a []string
  unfoldable pub extract_string_list : Option (Value F) → List String
  unfolding texts_of
  extract_string_list (some (arr items)) = texts_of items
  extract_string_list _ = []

  unfoldable pub goals_of : Fields F → List String
  unfolding extract_string_list
  goals_of certificate =
      or_goals
        (or_goals (extract_string_list (get certificate "requirements_checked"))
          (extract_string_list (get certificate "security_goals_checked")))
        (extract_string_list (get certificate "security_goals"))

  -- parseFirmwareCertificate once the status is "CERTIFIED"
  abbrev pub read_certificate : String → Option (Fields F) → Result (FirmwareCertificate F)
  read_certificate status none = err "certified response missing certificate"
  read_certificate status (some certificate) =
      if is_empty (get_string certificate "certificate_id")
      then err "certificate missing certificate_id"
      else ok (record {
        certificate_id = get_string certificate "certificate_id";
        status = status;
        security_goals_checked = goals_of certificate;
        digital_signature = get_string certificate "digital_signature";
        raw = certificate;
      })

  unfoldable pub parse_firmware_certificate :
      Option (FirmwareCertResult F) → Result (FirmwareCertificate F)
  unfolding to_upper trim_space goals_of
  parse_firmware_certificate none = err "empty regulator response"
  parse_firmware_certificate (some res) =
      let status = to_upper (trim_space res.status) in
      if not (status == "CERTIFIED")
      then err (
          append "firmware certification "
            (append status (append " (request_id=" (append res.request_id ")"))))
      else read_certificate status res.certificate

  -- ConsumeClaim: what it sends, of the messages as json.Unmarshal reads them, and how many of them
  -- it marks
  unfoldable pub consume_claim :
      String → List (Option (FirmwareCertResult F)) → Option (FirmwareCertResult F) × ℕ
  consume_claim request_id [] = (none, 0)
  consume_claim request_id (none ∷ msgs) =
      let rest = consume_claim request_id msgs in (rest.0, suc rest.1)
  consume_claim request_id (some res ∷ msgs) =
      let rest = consume_claim request_id msgs in
      if res.request_id == request_id then (some res, 1) else (rest.0, suc rest.1)

-- What the Kafka client and the time answer: an error of json.Marshal, of NewConsumerGroup, of
-- NewSyncProducer and of SendMessage; and an error of Consume, or the messages until the time is up.
pub record Answers (F : Type 0) : Type 0 where
  pub not_marshalled : Option String
  pub no_consumer : Option String
  pub no_producer : Option String
  pub not_sent : Option String
  pub consumed : Result (List (Option (FirmwareCertResult F)))
  pub timed_out : String

-- if err != nil { return nil, fmt.Errorf(prefix + err) }
abbrev unless : {A : Type 0} → String → Option String → Result A → Result A
unless prefix (some e) later = err (append prefix e)
unless prefix none later = later

module _ {F : Type 0} where
  abbrev pub result_of : Answers F → Option (FirmwareCertResult F) → Result (FirmwareCertificate F)
  result_of a none = err a.timed_out
  result_of a (some res) = parse_firmware_certificate (some res)

  -- the select at the end
  unfoldable pub await_result : Answers F → String → Result (FirmwareCertificate F)
  unfolding consume_claim parse_firmware_certificate
  await_result a request_id = a.consumed >>=? λ msgs. result_of a (consume_claim request_id msgs).0

  unfoldable pub request_firmware_cert : Options → Answers F → ℕ → Result (FirmwareCertificate F)
  unfolding await_result itoa
  request_firmware_cert o a clock =
      if is_empty o.repository_url
      then err "repository URL is required"
      else if is_empty o.commit_hash
      then err "commit hash is required"
      else unless "" a.not_marshalled (
          unless "consumer group: " a.no_consumer (
            unless "producer: " a.no_producer (
              unless "publish request: " a.not_sent (await_result a (append "req-" (itoa clock))))))
