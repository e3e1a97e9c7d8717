-- ===== src/Config/Services.antt =====
-- The checks of the broker, the delivery, the status and the log, internal/config/validate.go, and
-- Validate over all of them. A problem is named by what it is about; the warnings and the messages
-- are left out.
use device_serial_scanner.Common.{
  ℕ, suc, Bool, false, not, ◌&&◌, Option, none, some, List, [], ◌∷◌, ◌++◌, map, concat, Bytes,
  Assoc, codes, lookup, text_eq, ◌==◌, if◌then◌else◌, ℤ, at_least, below, ◌%◌,
}
use device_serial_scanner.Backoff.{PolicyProblem, validate_policy}
use device_serial_scanner.Config.{Problem, validate_identity}
use device_serial_scanner.Config.Settings.{
  Broker, reconnect_policy, DeviceConfig, DeliverySettings, StatusSettings, LoggingSettings, Config,
}
use device_serial_scanner.Config.Devices.{
  Texts, DevicesProblem, validate_devices, unless, is_one_of, whole_seconds,
}

-- What url.Parse makes of a URL; `host` has the port, `hostname` has not.
pub record Url : Type 0 where
  pub scheme : Bytes
  pub host : Bytes
  pub hostname : Bytes
  pub has_user : Bool

-- What os.Stat says of a path.
pub record FileInfo : Type 0 where
  pub is_dir : Bool
  pub is_regular : Bool
  pub perm : ℕ

-- The operating system and Go's libraries: url.Parse and os.Stat with `none` for an error,
-- filepath.Dir, and strings.ToLower of strings.TrimSpace.
pub record Host : Type 0 where
  pub texts : Texts
  pub parse_url : Bytes → Option Url
  pub stat : Bytes → Option FileInfo
  pub dir : Bytes → Bytes
  pub lower_trimmed : Bytes → Bytes

pub data ConfigProblem : Type 0 where
  in_identity : Problem → ConfigProblem
  in_devices : DevicesProblem → ConfigProblem
  url_required bad_url url_has_credentials url_without_host ca_file_unused : ConfigProblem
  plaintext_url unsupported_scheme : ConfigProblem
  credentials_required secret_unreadable secret_not_a_file secret_open_to_others : ConfigProblem
  ca_file_unreadable bad_keepalive bad_connect_timeout : ConfigProblem
  bad_reconnect_policy : PolicyProblem → ConfigProblem
  bad_publish_timeout bad_drain_timeout bad_buffer_size bad_intake_size : ConfigProblem
  publish_outlasts_expiry : ℕ → ConfigProblem
  bad_keepalive_interval bad_missed_keepalives bad_event_buffer_size : ConfigProblem
  bad_log_level log_file_relative log_dir_unreadable log_dir_not_a_dir : ConfigProblem
  bad_max_size bad_keep : ConfigProblem

abbrev pub tls_schemes : List Bytes
tls_schemes = codes "tls" ∷ codes "ssl" ∷ codes "mqtts" ∷ codes "wss" ∷ []

abbrev pub plaintext_schemes : List Bytes
plaintext_schemes = codes "tcp" ∷ codes "mqtt" ∷ codes "ws" ∷ []

-- Broker.UsesTLS.
unfoldable pub uses_tls : Host → Broker → Bool
unfolding is_one_of
uses_tls os broker = elim (os.parse_url broker.url) [
  | none ↦ false
  | some url ↦ is_one_of tls_schemes url.scheme
]

-- The switch on the host and the scheme.
unfoldable pub scheme_problems : Broker → Url → List ConfigProblem
unfolding is_one_of
scheme_problems broker url =
    if text_eq url.host []
    then url_without_host ∷ []
    else if is_one_of tls_schemes url.scheme
    then []
    else if is_one_of plaintext_schemes url.scheme
    then unless (text_eq broker.ca_file []) ca_file_unused ++ unless broker.insecure plaintext_url
    else unsupported_scheme ∷ []

unfoldable pub url_problems : Host → Broker → List ConfigProblem
unfolding scheme_problems
url_problems os broker =
    if text_eq broker.url [] then url_required ∷ [] else elim (os.parse_url broker.url) [
      | none ↦ bad_url ∷ []
      | some url ↦ unless (not url.has_user) url_has_credentials ++ scheme_problems broker url
    ]

-- checkSecretFile; `perm & 0o077` is what is left of the mode behind its last six bits.
unfoldable pub check_secret_file : Host → Bytes → List ConfigProblem
check_secret_file os path = elim (os.stat path) [
  | none ↦ secret_unreadable ∷ []
  | some info ↦
      if not info.is_regular
      then secret_not_a_file ∷ []
      else unless (info.perm % 64 == 0) secret_open_to_others
]

abbrev pub env_mqtt_password : Bytes
env_mqtt_password = codes "SH_DEV_AGENT_MQTT_PASSWORD"

-- The switch on the credentials, with the environment.
unfoldable pub credentials_problems : Host → Assoc Bytes → Broker → List ConfigProblem
unfolding check_secret_file
credentials_problems os env broker =
    if not (text_eq broker.credentials_file [])
    then check_secret_file os broker.credentials_file
    else elim (lookup env_mqtt_password env) [
      | none ↦ credentials_required ∷ []
      | some password ↦ []
    ]

abbrev pub ca_file_problems : Host → Broker → List ConfigProblem
ca_file_problems os broker =
    if text_eq broker.ca_file []
    then []
    else elim (os.stat broker.ca_file) [ none ↦ ca_file_unreadable ∷ [] | some info ↦ [] ]

-- The problems of each of the broker's settings, in the source's order.
unfoldable pub broker_parts : Host → Assoc Bytes → Broker → List (List ConfigProblem)
unfolding url_problems credentials_problems
broker_parts os env broker =
    url_problems os broker
    ∷ credentials_problems os env broker
    ∷ ca_file_problems os broker
    ∷ unless (at_least 1 broker.keepalive) bad_keepalive
    ∷ unless (at_least 1 broker.connect_timeout) bad_connect_timeout
    ∷ map bad_reconnect_policy (validate_policy (reconnect_policy broker))
    ∷ []

-- validateBroker.
unfoldable pub validate_broker : Host → Assoc Bytes → Broker → List ConfigProblem
unfolding broker_parts
validate_broker os env broker = concat (broker_parts os env broker)

-- The devices whose readings would expire before their publishing is given up.
unfoldable pub expiry_problems : ℤ → ℕ → List DeviceConfig → List ConfigProblem
expiry_problems timeout index [] = []
expiry_problems timeout index (d ∷ devices) =
    unless (not (at_least 1 d.message_expiry && below d.message_expiry timeout))
      (publish_outlasts_expiry index)
    ++ expiry_problems timeout (suc index) devices

-- The problems of each of the delivery's settings.
unfoldable pub delivery_parts : DeliverySettings → List DeviceConfig → List (List ConfigProblem)
unfolding expiry_problems
delivery_parts delivery devices =
    unless (at_least 1 delivery.publish_timeout) bad_publish_timeout
    ∷ expiry_problems delivery.publish_timeout 0 devices
    ∷ unless (at_least 1 delivery.drain_timeout) bad_drain_timeout
    ∷ unless (at_least 1 delivery.buffer_size) bad_buffer_size
    ∷ unless (at_least 1 delivery.tx_intake_size) bad_intake_size
    ∷ []

-- validateDelivery.
unfoldable pub validate_delivery : DeliverySettings → List DeviceConfig → List ConfigProblem
unfolding delivery_parts
validate_delivery delivery devices = concat (delivery_parts delivery devices)

-- The problems of each of the status's settings.
unfoldable pub status_parts : StatusSettings → List (List ConfigProblem)
unfolding whole_seconds
status_parts status =
    unless (whole_seconds status.keepalive_interval) bad_keepalive_interval
    ∷ unless (at_least 1 status.missed_keepalives) bad_missed_keepalives
    ∷ unless (at_least 1 status.event_buffer_size) bad_event_buffer_size
    ∷ []

-- validateStatus.
unfoldable pub validate_status : StatusSettings → List ConfigProblem
unfolding status_parts
validate_status status = concat (status_parts status)

-- logging.ParseLevel: whether it knows the level.
abbrev pub level_known : Host → Bytes → Bool
unfolding is_one_of
level_known os level =
    is_one_of (codes "debug" ∷ codes "info" ∷ codes "warn" ∷ codes "error" ∷ [])
      (os.lower_trimmed level)

-- The switch on the log file.
unfoldable pub log_file_problems : Host → Bytes → List ConfigProblem
log_file_problems os file =
    if text_eq file []
    then []
    else if not (os.texts.is_abs file)
    then log_file_relative ∷ []
    else elim (os.stat (os.dir file)) [
      | none ↦ log_dir_unreadable ∷ []
      | some info ↦ unless info.is_dir log_dir_not_a_dir
    ]

-- validateLogging.
unfoldable pub validate_logging : Host → LoggingSettings → List ConfigProblem
unfolding level_known log_file_problems
validate_logging os logging = concat (
    unless (level_known os logging.level) bad_log_level
    ∷ log_file_problems os logging.file
    ∷ unless (at_least 1 logging.max_size_mb) bad_max_size
    ∷ unless (at_least 0 logging.keep) bad_keep
    ∷ [])

-- The problems of each section.
unfoldable pub config_parts : Host → Assoc Bytes → Config → List (List ConfigProblem)
unfolding validate_broker validate_delivery validate_status validate_logging
config_parts os env cfg =
    map in_identity (validate_identity cfg.identity)
    ∷ validate_broker os env cfg.broker
    ∷ map in_devices (validate_devices os.texts cfg.devices)
    ∷ validate_delivery cfg.delivery cfg.devices
    ∷ validate_status cfg.status
    ∷ validate_logging os cfg.logging
    ∷ []

-- Validate.
unfoldable pub validate : Host → Assoc Bytes → Config → List ConfigProblem
unfolding config_parts
validate os env cfg = concat (config_parts os env cfg)
