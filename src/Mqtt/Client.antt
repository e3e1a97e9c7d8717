-- ===== src/Mqtt/Client.antt =====
-- The connection to the broker, internal/transport/mqtt/client.go: what Dial refuses, the
-- configuration of the connection, and the packets that are published. The connection manager, the
-- certificates and the floating-point seconds are Go's and a library's, so they are arguments; the
-- logger and the callbacks are left out.
pub mod Expiry
use device_serial_scanner.Common.{
  ℕ, zero, suc, ◌+◌, ◌*◌, Bool, true, false, not, ◌&&◌, ◌||◌, Option, none, some, List, [], ◌∷◌,
  Bytes, codes, text_eq, leb, ltb, ◌==◌, min, max, if◌then◌else◌, ℤ, pos, negsuc, at_least, natural,
}
use device_serial_scanner.Backoff.{PolicySettings, PolicyProblem, Policy, validate_policy, wait_for}
use device_serial_scanner.Config.Devices.{second}

abbrev pub qos_at_least_once : ℕ
qos_at_least_once = 1

abbrev pub qos_at_most_once : ℕ
qos_at_most_once = 0

-- reasonCodeFailure
abbrev pub reason_code_failure : ℕ
reason_code_failure = 128

-- `will` composes the offline message of a connection attempt; none is Go's nil.
pub record Options : Type 0 where
  pub url : Bytes
  pub client_id : Bytes
  pub username : Bytes
  pub password : Bytes
  pub tls : Bool
  pub ca_file : Bytes
  pub insecure : Bool
  pub keepalive : ℤ
  pub connect_timeout : ℤ
  pub reconnect : PolicySettings
  pub will_topic : Bytes
  pub will : Option (ℕ → Option Bytes)
  pub subscriptions : List Bytes

pub data DialError : Type 0 where
  client_id_required bad_keepalive bad_connect_timeout : DialError
  bad_reconnect : List PolicyProblem → DialError
  bad_url ca_file_unreadable ca_file_without_certs ca_file_unused will_incomplete : DialError
  manager_refused : DialError

-- math.Ceil and math.Round of a duration's Seconds, and what the library and the files answer:
-- url.Parse with the host name, os.ReadFile, AppendCertsFromPEM and autopaho.NewConnection.
pub record Library : Type 0 where
  pub ceil_seconds : ℕ → ℕ
  pub round_seconds : ℕ → ℕ
  pub hostname : Bytes → Option Bytes
  pub read_file : Bytes → Option Bytes
  pub has_certs : Bytes → Bool
  pub connects : Bool

-- messageExpiryInterval.
unfoldable pub message_expiry_interval : Library → ℤ → ℕ
message_expiry_interval lib expiry =
    if not (at_least 1 expiry) then 0 else min (lib.ceil_seconds (natural expiry)) 4294967295

-- keepaliveSeconds.
unfoldable pub keepalive_seconds : Library → ℤ → ℕ
keepalive_seconds lib delay =
    let seconds = lib.round_seconds (natural delay) in
    if ltb 65535 seconds then 65535 else if ltb seconds 1 then 1 else seconds

-- `roots` is none for the system's certificates.
pub record TlsConfig : Type 0 where
  pub server_name : Bytes
  pub skip_verify : Bool
  pub roots : Option Bytes

pub data Outcome {ℓ} (A : Type ℓ) : Type ℓ where
  done : A → Outcome A
  refused : DialError → Outcome A

-- tlsConfig.
unfoldable pub tls_config : Library → Bytes → Bytes → Bool → Outcome TlsConfig
tls_config lib host ca_file insecure =
    if text_eq ca_file []
    then done (record { server_name = host; skip_verify = insecure; roots = none })
    else elim (lib.read_file ca_file) [
      | none ↦ refused ca_file_unreadable
      | some pem ↦
          if lib.has_certs pem
          then done (record { server_name = host; skip_verify = insecure; roots = some pem })
          else refused ca_file_without_certs
    ]

-- The part of autopaho's ClientConfig that is not a callback.
pub record ClientConfig : Type 0 where
  pub tls : Option TlsConfig
  pub keep_alive : ℕ
  pub clean_start : Bool
  pub session_expiry : ℕ
  pub username : Bytes
  pub password : Bytes
  pub connect_timeout : ℤ
  pub client_id : Bytes
  pub has_queue : Bool
  pub will_topic : Option Bytes
  pub will_delay : ℕ

-- clientConfig.
unfoldable pub client_config : Library → Options → Option TlsConfig → ClientConfig
unfolding keepalive_seconds
client_config lib opts tls = record {
  tls = tls;
  keep_alive = keepalive_seconds lib opts.keepalive;
  clean_start = true;
  session_expiry = 0;
  username = opts.username;
  password = opts.password;
  connect_timeout = opts.connect_timeout;
  client_id = opts.client_id;
  has_queue = false;
  will_topic = elim opts.will [ none ↦ none | some compose ↦ some opts.will_topic ];
  will_delay = 0;
}

-- The switch on TLS.
unfoldable pub dial_tls : Library → Options → Bytes → Outcome (Option TlsConfig)
unfolding tls_config
dial_tls lib opts host =
    if opts.tls
    then elim (tls_config lib host opts.ca_file opts.insecure) [
      | done cfg ↦ done (some cfg)
      | refused e ↦ refused e
    ]
    else if text_eq opts.ca_file []
    then done none
    else refused ca_file_unused

-- Whether exactly one of the will and its topic is set.
abbrev pub will_is_incomplete : Options → Bool
will_is_incomplete opts = elim opts.will [
  | none ↦ not (text_eq opts.will_topic [])
  | some compose ↦ text_eq opts.will_topic []
]

-- Dial behind the parsing of the URL.
unfoldable pub dial_parsed : Library → Options → Bytes → Outcome ClientConfig
unfolding dial_tls client_config
dial_parsed lib opts host = elim (dial_tls lib opts host) [
  | refused e ↦ refused e
  | done tls ↦
      if will_is_incomplete opts
      then refused will_incomplete
      else if lib.connects
      then done (client_config lib opts tls)
      else refused manager_refused
]

-- Dial.
unfoldable pub dial : Library → Options → Outcome ClientConfig
unfolding dial_parsed
dial lib opts =
    if text_eq opts.client_id []
    then refused client_id_required
    else if not (at_least 1 opts.keepalive)
    then refused bad_keepalive
    else if not (at_least 1 opts.connect_timeout)
    then refused bad_connect_timeout
    else elim (validate_policy opts.reconnect) [
      | problem ∷ problems ↦ refused (bad_reconnect (problem ∷ problems))
      | [] ↦ elim (lib.hostname opts.url) [
        | none ↦ refused bad_url
        | some host ↦ dial_parsed lib opts host
      ]
    ]

-- A publish packet; `message_expiry` is none without the property.
pub record Publish : Type 0 where
  pub topic : Bytes
  pub qos : ℕ
  pub payload : Bytes
  pub message_expiry : Option ℕ

-- PublishRx and PublishEvent, PublishKeepalive, PublishOffline: the packets.
unfoldable pub rx_packet : Library → Bytes → Bytes → ℤ → Publish
unfolding message_expiry_interval
rx_packet lib topic payload expiry = record {
  topic = topic;
  qos = qos_at_least_once;
  payload = payload;
  message_expiry = some (message_expiry_interval lib expiry);
}

abbrev pub keepalive_packet : Library → Bytes → Bytes → ℤ → Publish
unfolding message_expiry_interval
keepalive_packet lib topic payload expiry = record {
  topic = topic;
  qos = qos_at_most_once;
  payload = payload;
  message_expiry = some (message_expiry_interval lib expiry);
}

abbrev pub offline_packet : Bytes → Bytes → Publish
offline_packet topic payload = record {
  topic = topic;
  qos = qos_at_least_once;
  payload = payload;
  message_expiry = none;
}

-- What the connection manager answers to a publish; the code is none for no response.
pub data ManagerAnswer : Type 0 where
  connection_down : ManagerAnswer
  publish_failed : Bytes → ManagerAnswer
  responded : Option ℕ → ManagerAnswer

pub data PublishError : Type 0 where
  down : PublishError
  failed_with : Bytes → PublishError
  refused_with : ℕ → PublishError

-- publish: none is a nil error.
unfoldable pub publish : Publish → ManagerAnswer → Option PublishError
publish packet connection_down = some down
publish packet (publish_failed text) = some (failed_with text)
publish packet (responded none) = none
publish packet (responded (some code)) =
    if packet.qos == qos_at_most_once
    then none
    else if leb reason_code_failure code
    then some (refused_with code)
    else none

pub record Message : Type 0 where
  pub topic : Bytes
  pub payload : Bytes
  pub expiry : Option ℕ
  pub received : ℕ

-- messageFromPublish, the expiry in nanoseconds.
unfoldable pub message_from_publish : Publish → ℕ → Message
message_from_publish packet received = record {
  topic = packet.topic;
  payload = packet.payload;
  expiry = elim packet.message_expiry [ none ↦ none | some seconds ↦ some (seconds * second) ];
  received = received;
}

-- reconnectDelay.
unfoldable pub reconnect_delay : Policy → (ℤ → ℤ) → Bool → ℕ → ℤ
unfolding wait_for
reconnect_delay policy spread connected_before attempt =
    if connected_before
    then wait_for policy spread (attempt + 1)
    else if attempt == 0
    then pos 0
    else wait_for policy spread attempt
