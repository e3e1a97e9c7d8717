-- ===== src/Tests/Routed.antt =====
-- An agent that is built from a configuration, and a tx in it: cmd/skuhus-device-agent/run.go and
-- internal/core.
use device_serial_scanner.Agent.{with_url, dial_options, core_options}
use device_serial_scanner.Agent.Routed.{run_agent-routed}
use device_serial_scanner.Serial.New.{SerialDevice, options_of, no_parity, one_stop_bit}
use device_serial_scanner.Core.New.{CoreDevice, tx_routes}
use device_serial_scanner.Core.Routing.{admit_tx, by_tx_topic}
use device_serial_scanner.Core.Routing.Fanout.{admit_each}
use device_serial_scanner.Core.Tx.{TxMessage}
use device_serial_scanner.Tests.Wires.{sample_codec}
use device_serial_scanner.Tests.Txs.{line}
use device_serial_scanner.Common.{
  lookup, ◌++◌, map, Bytes, ◌*◌, ◌≡◌, refl, false, none, some, [], ◌∷◌, codes, text_eq, pos,
}
use device_serial_scanner.Backoff.{validate_policy}
use device_serial_scanner.Wire.Topics.{is_segment, AgentTopics, scope_site}
use device_serial_scanner.Config.Settings.{apply_derived_defaults}
use device_serial_scanner.Config.Devices.{second}
use device_serial_scanner.Mqtt.Client.{client_config}
use device_serial_scanner.Agent.{Assembled, ready}
use device_serial_scanner.Agent.Start.{run_agent}
use device_serial_scanner.Config.Credentials.{cut, is_skipped, read_key}
use device_serial_scanner.Framer.{new_framer}
use device_serial_scanner.Wire.Topics.{join_levels}
use device_serial_scanner.Tests.Agents.{scanner, station, host, library, start, station_valid}

-- The agent that is built for the station, with its one device.
abbrev prefix : Bytes
prefix = codes "skuhus/acme/vasby/pack-03/"

abbrev scanner_reader : SerialDevice
scanner_reader = record {
  opts = options_of scanner no_parity one_stop_bit;
  read_buffer_bytes = 257;
}

abbrev scanner_device : CoreDevice
scanner_device = record {
  reader = some scanner_reader;
  id = codes "scanner";
  device_type = [];
  expiry = pos (60 * second);
  topics = record {
    rx = prefix ++ codes "scanner/rx";
    tx = prefix ++ codes "scanner/tx";
    status = prefix ++ codes "scanner/status";
  };
  tx_open_attempts = pos 3;
  tx_open_interval = pos 1;
  tx_remembered_ids = pos 100;
  broadcast_groups =
      record {
        topic = codes "skuhus/acme/vasby/group/scanners/tx";
        scope = scope_site;
        group = codes "scanners";
      }
      ∷ [];
}

abbrev agent_topic : AgentTopics
agent_topic = record { status = prefix ++ codes "agent/pack-03/status" }

abbrev assembled : Assembled
assembled = record {
  connection =
      client_config (with_url host library)
        (dial_options host (apply_derived_defaults station) (codes "u") (codes "p") agent_topic
          (λ n. none) (map (λ route. route.topic) (tx_routes scanner_device)))
        (some (record {
          server_name = codes "broker";
          skip_verify = false;
          roots = some (codes "pem");
        }));
  core = core_options (apply_derived_defaults station) (scanner_device ∷ []) agent_topic;
}

station_runs :
    run_agent host library start (apply_derived_defaults station) (λ n. none) ≡ ready assembled
unfolding run_agent cut is_skipped read_key lookup dial_options apply_derived_defaults client_config
    is_segment text_eq new_framer validate_policy join_levels
station_runs = refl

abbrev to_scanners : TxMessage
to_scanners = record {
  topic = codes "skuhus/acme/vasby/group/scanners/tx";
  payload = codes "{";
  expiry = some 100;
  received = 0;
}

run_agent-routed_example :
    admit_tx sample_codec
      (λ k. k)
      (λ k. false)
      (by_tx_topic (map tx_routes assembled.core.devices))
      to_scanners
      (line ∷ [])
    ≡ admit_each sample_codec
        (λ k. k)
        (λ k. false)
        to_scanners
        0
        (map tx_routes assembled.core.devices)
        (line ∷ [])
run_agent-routed_example =
    run_agent-routed host library [] start (apply_derived_defaults station) (λ n. none) assembled
      sample_codec (λ k. k) (λ k. false) to_scanners (line ∷ []) station_valid station_runs refl
