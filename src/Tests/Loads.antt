-- ===== src/Tests/Loads.antt =====
-- internal/config/credentials.go, env.go and load.go.
use device_serial_scanner.Common.{
  ◌≡◌, refl, true, false, none, some, [], ◌∷◌, Bytes, codes, All, lookup, put, text_eq,
}
use device_serial_scanner.Backoff.{validate_policy}
use device_serial_scanner.Wire.Topics.{is_segment}
use device_serial_scanner.Config.{validate_identity, validate_broadcast_groups}
use device_serial_scanner.Config.Settings.{apply_derived_defaults, Config}
use device_serial_scanner.Config.Devices.{validate_devices}
use device_serial_scanner.Config.Services.{validate}
use device_serial_scanner.Config.Credentials.{Strings, load_credentials, loaded, is_skipped}
use device_serial_scanner.Config.Credentials.Verbatim.{
  IsStrings, both_keys, load_credentials-both_keys,
}
use device_serial_scanner.Config.Environment.{TextField, text_at, apply_setter, write_text}
use device_serial_scanner.Config.Environment.Targets.{legacy_env_prefixes, env_targets}
use device_serial_scanner.Config.Environment.Overlay.{env_map, apply_env}
use device_serial_scanner.Config.Environment.Legacy.{
  entry_name, legacy_suffix, reject_legacy_environment,
}
use device_serial_scanner.Config.Environment.Applied.{IsSorting}
use device_serial_scanner.Config.Load.{
  System, LoadOptions, config_path, decoded, config_loaded, load,
}
use device_serial_scanner.Config.Load.Precedence.{derived, said, load-precedence}
use device_serial_scanner.Config.Load.Refusals.{IsRecognised, load-IsAccepted}
use device_serial_scanner.Tests.Agents.{station, host}

-- Texts that neither function changes.
abbrev as_written : Strings
as_written = record { trim_space = λ text. text; to_lower = λ text. text }

as_written-IsStrings : IsStrings as_written
as_written-IsStrings = record {
  username_key = refl;
  password_key = refl;
  keeps_u = λ cs. (cs, refl);
  keeps_p = λ cs. (cs, refl);
}

abbrev comment : Bytes
comment = codes "# the broker"

load_credentials-both_keys_example :
    load_credentials as_written
      (codes "/etc/credentials")
      (some (both_keys (comment ∷ []) (codes "agent") ([] ∷ []) (codes " a=b ") [], true))
      []
    ≡ loaded (record { username = codes "agent"; password = codes " a=b " })
unfolding is_skipped text_eq
load_credentials-both_keys_example =
    load_credentials-both_keys as_written (codes "/etc/credentials") (comment ∷ []) (codes "agent")
      ([] ∷ []) (codes " a=b ") [] as_written-IsStrings (refl, tt) (refl, tt) tt refl refl refl

abbrev system : System
system = record {
  go = record {
    parse_bool = λ v. none;
    atoi = λ v. none;
    parse_duration = λ v. none;
    sort_strings = λ names. names;
  };
  host = host;
  default_path = codes "/etc/agent.yaml";
  open_config = λ path. decoded station;
}

-- The broker's url from the environment, and the project from a flag.
abbrev options : LoadOptions
options = record {
  path = [];
  environ = codes "HOME=/root" ∷ codes "SH_DEV_AGENT_BROKER_URL=tls://other" ∷ [];
  overrides = record {
    project = some (codes "skuhus");
    site = none;
    station = none;
    instance_id = none;
    broker_url = none;
    broker_credentials_file = none;
    broker_ca_file = none;
    broker_insecure = none;
    log_level = none;
    log_payloads = none;
  };
  skip_validate = false;
}

abbrev final : Config
final = record station {
  identity = record (station.identity) {
    project = codes "skuhus";
    instance_id = station.identity.station;
  };
  broker = record (station.broker) { url = codes "tls://other" };
}

load-options : load system options ≡ config_loaded final
unfolding load reject_legacy_environment apply_env env_map put text_eq lookup env_targets
    apply_setter validate validate_identity apply_derived_defaults write_text is_segment
    validate_policy validate_devices validate_broadcast_groups
load-options = refl

as_given : IsSorting (λ names. names)
as_given = record { same = λ names name. refl }

load-precedence_example :
    (file : Config) × (system.open_config
        (config_path system options.path (env_map options.environ [])).0
      ≡ decoded file)
    × ((f : TextField) → text_at f final ≡ derived f (said options file))
load-precedence_example = load-precedence system options final as_given load-options

load-IsAccepted_example :
    All (λ entry. legacy_suffix legacy_env_prefixes (entry_name entry) ≡ none) options.environ
    × ((name value : Bytes)
        → lookup name (env_map options.environ []) ≡ some value
        → IsRecognised system.go name value)
    × (options.skip_validate ≡ false → validate system.host (env_map options.environ []) final ≡ [])
load-IsAccepted_example = load-IsAccepted system options final as_given load-options
