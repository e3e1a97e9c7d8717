-- ===== src/Tests/Agents.antt =====
-- cmd/skuhus-device-agent: a station's configuration, from its checks to the agent.
use device_serial_scanner.Common.{
  ◌*◌, ◌/◌, ◌+◌, ◌≡◌, refl, not, true, false, none, some, [], ◌∷◌, codes, text_eq, pos, lookup, put,
  arith, ◌^◌, ◌<◌, ◌≤◌, ◌↔◌, negsuc, at_least,
}
use device_serial_scanner.Backoff.{no_jitter, within_one, validate_policy}
use device_serial_scanner.Wire.Topics.{is_segment}
use device_serial_scanner.Config.{
  level_problems, instance_problems, validate_identity, scope_problems, validate_broadcast_groups,
}
use device_serial_scanner.Config.Settings.{apply_derived_defaults, DeviceConfig, Config}
use device_serial_scanner.Config.Devices.{
  second, whole_seconds, id_problems, path_problems, is_one_of, separator_problems, has_backslash,
  cut_prefix, device_parts, device_problems, each_device, validate_devices,
}
use device_serial_scanner.Config.Services.{
  Host, validate, config_parts, validate_broker, broker_parts, url_problems, scheme_problems,
  credentials_problems, check_secret_file, validate_delivery, delivery_parts, expiry_problems,
  validate_status, status_parts, validate_logging, log_file_problems,
}
use device_serial_scanner.Mqtt.Client.{Library, message_expiry_interval, keepalive_seconds}
use device_serial_scanner.Mqtt.Client.Expiry.{message_expiry_interval-keepalive_seconds}
use device_serial_scanner.Agent.{Assembled, ready}
use device_serial_scanner.Agent.Start.{Start, run_agent}
use device_serial_scanner.Agent.Accepted.{Allows, run_agent-ready}
use device_serial_scanner.Mqtt.Client.{Publish, message_from_publish}
use device_serial_scanner.Core.Tx.{new_job, Outcome, write_tx}
use device_serial_scanner.Agent.Intake.{tx_message_of}
use device_serial_scanner.Agent.Intake.Deadline.{KeepsTo, write_tx-KeepsTo}
use device_serial_scanner.Tests.Txs.{printer, rounds}
use device_serial_scanner.Tests.Wires.{sample_ref}

abbrev pub scanner : DeviceConfig
scanner = record {
  id = codes "scanner";
  kind = codes "serial";
  path = codes "/dev/serial/by-id/scanner";
  baud = pos 9600;
  data_bits = pos 8;
  parity = codes "none";
  stop_bits = codes "1";
  separator = 13 ∷ [];
  max_frame_bytes = pos 256;
  inter_char_timeout = pos 200;
  message_expiry = pos (60 * second);
  device_type = [];
  reopen_interval = pos 1;
  reopen_backoff = record { enabled = true; longest = pos 60; jitter = within_one };
  tx_open_attempts = pos 3;
  tx_open_interval = pos 1;
  tx_chunk_bytes = pos 64;
  tx_remembered_ids = pos 100;
  broadcast_groups = record { in_project = []; in_site = codes "scanners" ∷ []; in_station = [] };
}

abbrev pub station : Config
station = record {
  identity = record {
    project = codes "acme";
    site = codes "vasby";
    station = codes "pack-03";
    instance_id = [];
  };
  broker = record {
    url = codes "tls://broker";
    credentials_file = codes "/etc/credentials";
    ca_file = codes "/etc/ca.pem";
    insecure = false;
    keepalive = pos 1;
    connect_timeout = pos 1;
    reconnect_interval = pos 1;
    reconnect_backoff = record { enabled = false; longest = pos 0; jitter = no_jitter };
  };
  devices = scanner ∷ [];
  delivery = record {
    publish_timeout = pos 5;
    buffer_size = pos 16;
    drain_timeout = pos 5;
    tx_intake_size = pos 16;
  };
  status = record {
    keepalive_interval = pos (30 * second);
    missed_keepalives = pos 3;
    event_buffer_size = pos 16;
  };
  logging = record {
    level = codes "info";
    log_payloads = false;
    file = codes "/var/log/agent.log";
    max_size_mb = pos 10;
    keep = pos 3;
    stdout = true;
  };
}

abbrev pub host : Host
host = record {
  texts = record { is_abs = λ path. true; is_blank = λ text. false; has_control = λ text. false };
  parse_url = λ url. some (record {
    scheme = codes "tls";
    host = codes "broker";
    hostname = codes "broker";
    has_user = false;
  });
  stat = λ path. some (record {
    is_dir = text_eq path (codes "/var/log");
    is_regular = not (text_eq path (codes "/var/log"));
    perm = 384;
  });
  dir = λ path. codes "/var/log";
  lower_trimmed = λ text. text;
}

-- Seconds without the rounding of floating-point numbers.
abbrev pub library : Library
library = record {
  ceil_seconds = λ d. (d + 999999999) / second;
  round_seconds = λ d. (d + 500000000) / second;
  hostname = λ url. none;
  read_file = λ path. some (codes "pem");
  has_certs = λ pem. true;
  connects = true;
}

pub station_valid : validate host [] (apply_derived_defaults station) ≡ []
unfolding apply_derived_defaults text_eq is_segment lookup put validate_policy level_problems
    instance_problems validate_identity scope_problems validate_broadcast_groups whole_seconds
    id_problems path_problems is_one_of separator_problems has_backslash cut_prefix device_parts
    device_problems each_device validate_devices validate config_parts validate_broker broker_parts
    url_problems scheme_problems credentials_problems check_secret_file validate_delivery
    delivery_parts expiry_problems validate_status status_parts validate_logging log_file_problems
station_valid = refl

-- A log file that is there, and a credentials file of two lines.
abbrev pub start : Start
start = record {
  answers = record {
    closes = true;
    removes = λ g. true;
    renames = λ g. true;
    opens = true;
    stats = true;
    takes = 100;
    fails = false;
  };
  directory = some true;
  disk = λ g. some (codes "old");
  strings = record { trim_space = λ text. text; to_lower = λ text. text };
  credentials = some (codes "username=u" ∷ codes "password=p" ∷ [], true);
  env = [];
}

run_agent-ready_example :
    ((a : Assembled) × (run_agent host library start (apply_derived_defaults station) (λ n. none)
        ≡ ready a))
    ↔ Allows library start (apply_derived_defaults station)
run_agent-ready_example = run_agent-ready host library [] start station (λ n. none) station_valid

message_expiry_interval-keepalive_seconds_example :
    (message_expiry_interval library (pos 1) < 2 ^ 32)
    × ((message_expiry_interval library (pos 1) ≡ 0) ↔ (at_least 1 (pos 1) ≡ false))
    × (1 ≤ keepalive_seconds library (negsuc 4))
    × (keepalive_seconds library (negsuc 4) < 2 ^ 16)
message_expiry_interval-keepalive_seconds_example =
    message_expiry_interval-keepalive_seconds library (pos 1) (negsuc 4) (λ d h. omega arith)

-- A tx that may be written for a minute.
abbrev packet : Publish
packet = record {
  topic = codes "skuhus/acme/vasby/pack-03/printer/tx";
  qos = 1;
  payload = codes "{";
  message_expiry = some 60;
}

write_tx-KeepsTo_example :
    (out : Outcome) × (write_tx printer
        (new_job sample_ref (codes "abc") (tx_message_of (message_from_publish packet 0)))
        rounds
      ≡ some out)
    × KeepsTo (0 + 60 * second) rounds out
write_tx-KeepsTo_example = write_tx-KeepsTo printer packet 60 0 sample_ref (codes "abc") rounds refl
