-- ===== src/Config/Environment.antt =====
-- The environment's overrides, internal/config/env.go. Go's parsers and sort.Strings are arguments;
-- a problem is named by what it is about, and its message is left out. A field's address, which a
-- setter writes through, is the field's name here.
pub mod Targets
pub mod Overlay
pub mod Legacy
pub mod Fields
pub mod Setters
pub mod Applied
use device_serial_scanner.Common.{
  Bool, true, false, ◌||◌, Option, none, some, List, [], ◌∷◌, ◌++◌, map, Bytes, Assoc, codes,
  lookup, put, text_eq, if◌then◌else◌, ℤ,
}
use device_serial_scanner.Config.Settings.{Config}
use device_serial_scanner.Config.Devices.{cut_prefix}
use device_serial_scanner.Config.Credentials.{cut, value_or}

-- strconv.ParseBool, strconv.Atoi and time.ParseDuration, `none` for an error, and sort.Strings.
pub record Parsers : Type 0 where
  pub parse_bool : Bytes → Option Bool
  pub atoi : Bytes → Option ℤ
  pub parse_duration : Bytes → Option ℤ
  pub sort_strings : List Bytes → List Bytes

pub data TextField : Type 0 where
  project site station instance_id url credentials_file ca_file log_level log_file : TextField

pub data FlagField : Type 0 where
  insecure log_payloads log_stdout : FlagField

pub data NumberField : Type 0 where
  buffer_size tx_intake_size missed_keepalives event_buffer_size max_size_mb keep : NumberField
  keepalive connect_timeout reconnect_interval publish_timeout : NumberField
  drain_timeout keepalive_interval : NumberField

unfoldable pub text_at : TextField → Config → Bytes
text_at project cfg = cfg.identity.project
text_at site cfg = cfg.identity.site
text_at station cfg = cfg.identity.station
text_at instance_id cfg = cfg.identity.instance_id
text_at url cfg = cfg.broker.url
text_at credentials_file cfg = cfg.broker.credentials_file
text_at ca_file cfg = cfg.broker.ca_file
text_at log_level cfg = cfg.logging.level
text_at log_file cfg = cfg.logging.file

unfoldable pub write_text : TextField → Bytes → Config → Config
write_text project v cfg = record cfg { identity = record (cfg.identity) { project = v } }
write_text site v cfg = record cfg { identity = record (cfg.identity) { site = v } }
write_text station v cfg = record cfg { identity = record (cfg.identity) { station = v } }
write_text instance_id v cfg = record cfg { identity = record (cfg.identity) { instance_id = v } }
write_text url v cfg = record cfg { broker = record (cfg.broker) { url = v } }
write_text credentials_file v cfg = record cfg {
  broker = record (cfg.broker) { credentials_file = v };
}
write_text ca_file v cfg = record cfg { broker = record (cfg.broker) { ca_file = v } }
write_text log_level v cfg = record cfg { logging = record (cfg.logging) { level = v } }
write_text log_file v cfg = record cfg { logging = record (cfg.logging) { file = v } }

unfoldable pub write_flag : FlagField → Bool → Config → Config
write_flag insecure v cfg = record cfg { broker = record (cfg.broker) { insecure = v } }
write_flag log_payloads v cfg = record cfg { logging = record (cfg.logging) { log_payloads = v } }
write_flag log_stdout v cfg = record cfg { logging = record (cfg.logging) { stdout = v } }

unfoldable pub write_number : NumberField → ℤ → Config → Config
write_number buffer_size v cfg = record cfg { delivery = record (cfg.delivery) { buffer_size = v } }
write_number tx_intake_size v cfg = record cfg {
  delivery = record (cfg.delivery) { tx_intake_size = v };
}
write_number missed_keepalives v cfg = record cfg {
  status = record (cfg.status) { missed_keepalives = v };
}
write_number event_buffer_size v cfg = record cfg {
  status = record (cfg.status) { event_buffer_size = v };
}
write_number max_size_mb v cfg = record cfg { logging = record (cfg.logging) { max_size_mb = v } }
write_number keep v cfg = record cfg { logging = record (cfg.logging) { keep = v } }
write_number keepalive v cfg = record cfg { broker = record (cfg.broker) { keepalive = v } }
write_number connect_timeout v cfg = record cfg {
  broker = record (cfg.broker) { connect_timeout = v };
}
write_number reconnect_interval v cfg = record cfg {
  broker = record (cfg.broker) { reconnect_interval = v };
}
write_number publish_timeout v cfg = record cfg {
  delivery = record (cfg.delivery) { publish_timeout = v };
}
write_number drain_timeout v cfg = record cfg {
  delivery = record (cfg.delivery) { drain_timeout = v };
}
write_number keepalive_interval v cfg = record cfg {
  status = record (cfg.status) { keepalive_interval = v };
}

-- The setters: setString, setBool, setInt and setDuration of a field, and the function that sets
-- nothing.
pub data Setter : Type 0 where
  set_nothing : Setter
  set_string : TextField → Setter
  set_bool : FlagField → Setter
  set_int set_duration : NumberField → Setter

abbrev pub map_option {ℓ κ} : {A : Type ℓ} {B : Type κ} → (A → B) → Option A → Option B
map_option f none = none
map_option f (some a) = some (f a)

-- A setter on a value: `none` for an error.
unfoldable pub apply_setter : Parsers → Setter → Bytes → Config → Option Config
apply_setter go set_nothing v cfg = some cfg
apply_setter go (set_string f) v cfg = some (write_text f v cfg)
apply_setter go (set_bool f) v cfg = map_option (λ b. write_flag f b cfg) (go.parse_bool v)
apply_setter go (set_int f) v cfg = map_option (λ n. write_number f n cfg) (go.atoi v)
apply_setter go (set_duration f) v cfg =
    map_option (λ n. write_number f n cfg) (go.parse_duration v)
