-- ===== src/Config/Settings.antt =====
-- The configuration's values, internal/config/config.go. Texts are byte strings, and a duration is
-- a number of nanoseconds. Also the derived default of internal/config/defaults.go.
use device_serial_scanner.Common.{Bool, List, [], Bytes, text_eq, if◌then◌else◌, ℤ}
use device_serial_scanner.Backoff.{Jitter, PolicySettings}
use device_serial_scanner.Config.{Identity, BroadcastGroups}

pub record Backoff : Type 0 where
  pub enabled : Bool
  pub longest : ℤ
  pub jitter : Jitter

-- Backoff.policy.
abbrev pub policy : Backoff → ℤ → PolicySettings
policy settings interval = record {
  interval = interval;
  grow = settings.enabled;
  longest = settings.longest;
  jitter = settings.jitter;
}

pub record Broker : Type 0 where
  pub url : Bytes
  pub credentials_file : Bytes
  pub ca_file : Bytes
  pub insecure : Bool
  pub keepalive : ℤ
  pub connect_timeout : ℤ
  pub reconnect_interval : ℤ
  pub reconnect_backoff : Backoff

abbrev pub reconnect_policy : Broker → PolicySettings
reconnect_policy broker = policy broker.reconnect_backoff broker.reconnect_interval

-- Device: one entry of `devices`.
pub record DeviceConfig : Type 0 where
  pub id : Bytes
  pub kind : Bytes
  pub path : Bytes
  pub baud : ℤ
  pub data_bits : ℤ
  pub parity : Bytes
  pub stop_bits : Bytes
  pub separator : Bytes
  pub max_frame_bytes : ℤ
  pub inter_char_timeout : ℤ
  pub message_expiry : ℤ
  pub device_type : Bytes
  pub reopen_interval : ℤ
  pub reopen_backoff : Backoff
  pub tx_open_attempts : ℤ
  pub tx_open_interval : ℤ
  pub tx_chunk_bytes : ℤ
  pub tx_remembered_ids : ℤ
  pub broadcast_groups : BroadcastGroups

abbrev pub reopen_policy : DeviceConfig → PolicySettings
reopen_policy device_cfg = policy device_cfg.reopen_backoff device_cfg.reopen_interval

pub record DeliverySettings : Type 0 where
  pub publish_timeout : ℤ
  pub buffer_size : ℤ
  pub drain_timeout : ℤ
  pub tx_intake_size : ℤ

pub record StatusSettings : Type 0 where
  pub keepalive_interval : ℤ
  pub missed_keepalives : ℤ
  pub event_buffer_size : ℤ

pub record LoggingSettings : Type 0 where
  pub level : Bytes
  pub log_payloads : Bool
  pub file : Bytes
  pub max_size_mb : ℤ
  pub keep : ℤ
  pub stdout : Bool

pub record Config : Type 0 where
  pub identity : Identity
  pub broker : Broker
  pub devices : List DeviceConfig
  pub delivery : DeliverySettings
  pub status : StatusSettings
  pub logging : LoggingSettings

-- applyDerivedDefaults: an empty instance takes the station's id.
unfoldable pub apply_derived_defaults : Config → Config
apply_derived_defaults cfg =
    if text_eq cfg.identity.instance_id []
    then record cfg { identity = record (cfg.identity) { instance_id = cfg.identity.station } }
    else cfg
