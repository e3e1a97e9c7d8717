-- ===== src/Config/Environment/Targets.antt =====
-- The environment's variables, internal/config/env.go: the recognised ones with their setters, and
-- those that earlier releases read.
use device_serial_scanner.Common.{List, [], ◌∷◌, ◌++◌, map, Bytes, Assoc, codes}
use device_serial_scanner.Config.Services.{env_mqtt_password}
use device_serial_scanner.Config.Credentials.{env_mqtt_username}
use device_serial_scanner.Config.Environment.{
  project, site, station, instance_id, url, credentials_file, ca_file, log_level, log_file,
  insecure, log_payloads, log_stdout, buffer_size, tx_intake_size, missed_keepalives,
  event_buffer_size, max_size_mb, keep, keepalive, connect_timeout, reconnect_interval,
  publish_timeout, drain_timeout, keepalive_interval, Setter, set_nothing, set_string, set_bool,
  set_int, set_duration,
}

-- EnvPrefix
abbrev pub env_prefix : Bytes
env_prefix = codes "SH_DEV_AGENT_"

-- legacyEnvPrefixes
abbrev pub legacy_env_prefixes : List Bytes
legacy_env_prefixes = codes "SKUHUS_AGENT_" ∷ codes "SH_DEV_SER_SCANNER_" ∷ []

-- EnvConfigPath
abbrev pub env_config_path : Bytes
env_config_path = env_prefix ++ codes "CONFIG"

-- The names of removedEnv; what replaces each is part of a message.
abbrev pub removed_env : List Bytes
removed_env =
    map (λ suffix. env_prefix ++ suffix)
      (codes "DELIVERY_SCAN_TTL"
        ∷ codes "LOGGING_AUDIT_FILE"
        ∷ codes "LOGGING_AUDIT_MAX_SIZE_MB"
        ∷ codes "LOGGING_AUDIT_KEEP"
        ∷ [])

abbrev pub target : Bytes → Setter → Bytes × Setter
target suffix setter = (env_prefix ++ suffix, setter)

abbrev identity_targets : Assoc Setter
identity_targets =
    target (codes "IDENTITY_PROJECT") (set_string project)
    ∷ target (codes "IDENTITY_SITE") (set_string site)
    ∷ target (codes "IDENTITY_STATION") (set_string station)
    ∷ target (codes "IDENTITY_INSTANCE") (set_string instance_id)
    ∷ []

abbrev broker_targets : Assoc Setter
broker_targets =
    target (codes "BROKER_URL") (set_string url)
    ∷ target (codes "BROKER_CREDENTIALS_FILE") (set_string credentials_file)
    ∷ target (codes "BROKER_CA_FILE") (set_string ca_file)
    ∷ target (codes "BROKER_INSECURE") (set_bool insecure)
    ∷ target (codes "BROKER_KEEPALIVE") (set_duration keepalive)
    ∷ target (codes "BROKER_CONNECT_TIMEOUT") (set_duration connect_timeout)
    ∷ target (codes "BROKER_RECONNECT_INTERVAL") (set_duration reconnect_interval)
    ∷ []

abbrev delivery_targets : Assoc Setter
delivery_targets =
    target (codes "DELIVERY_PUBLISH_TIMEOUT") (set_duration publish_timeout)
    ∷ target (codes "DELIVERY_BUFFER_SIZE") (set_int buffer_size)
    ∷ target (codes "DELIVERY_DRAIN_TIMEOUT") (set_duration drain_timeout)
    ∷ target (codes "DELIVERY_TX_INTAKE_SIZE") (set_int tx_intake_size)
    ∷ []

abbrev status_targets : Assoc Setter
status_targets =
    target (codes "STATUS_KEEPALIVE_INTERVAL") (set_duration keepalive_interval)
    ∷ target (codes "STATUS_MISSED_KEEPALIVES") (set_int missed_keepalives)
    ∷ target (codes "STATUS_EVENT_BUFFER_SIZE") (set_int event_buffer_size)
    ∷ []

abbrev logging_targets : Assoc Setter
logging_targets =
    target (codes "LOGGING_LEVEL") (set_string log_level)
    ∷ target (codes "LOGGING_LOG_PAYLOADS") (set_bool log_payloads)
    ∷ target (codes "LOGGING_FILE") (set_string log_file)
    ∷ target (codes "LOGGING_MAX_SIZE_MB") (set_int max_size_mb)
    ∷ target (codes "LOGGING_KEEP") (set_int keep)
    ∷ target (codes "LOGGING_STDOUT") (set_bool log_stdout)
    ∷ []

-- envTargets
unfoldable pub env_targets : Assoc Setter
env_targets =
    (env_config_path, set_nothing)
      ∷ (env_mqtt_username, set_nothing)
      ∷ (env_mqtt_password, set_nothing)
      ∷ identity_targets
    ++ broker_targets
    ++ delivery_targets
    ++ status_targets
    ++ logging_targets
