-- ===== src/Wire/Messages.antt =====
-- The Builder's messages, internal/wire/messages.go, but for the tx results. A message's id, the
-- rendering of times and numbers, base64 and the test for UTF-8 come from Go's libraries and enter
-- through `Builder`. Instants and durations are nanoseconds.
pub mod Events
pub mod Keepalives
use device_serial_scanner.Common.{
  ℕ, zero, suc, ◌+◌, ◌*◌, ◌-◌, ◌/◌, ◌%◌, ◌^◌, Bool, true, false, Option, none, some, List, [], ◌∷◌,
  ◌++◌, map, Bytes, Assoc, codes, ltb, if◌then◌else◌, ℤ, pos, negsuc,
}
use device_serial_scanner.Wire.Counters.{
  ErrorClass, absent, busy, permission_denied, read_only, disconnected, port_error, unknown,
  unlisted, DiscardReason, oversize, inter_char_timeout, resync, empty_frame, unlisted_reason,
  DeviceCounters,
}
use device_serial_scanner.Wire.Topics.{TxRoute, TxScope}
use device_serial_scanner.Wire.Tx.{nil_if_empty}

-- A second, in nanoseconds.
abbrev pub one_second : ℕ
one_second = 1000000000

-- int64(at.Sub(started) / time.Second), which cuts towards 0.
unfoldable pub seconds_since : ℕ → ℕ → ℤ
seconds_since started at =
    if ltb at started
    then before ((started - at) / one_second)
    else pos ((at - started) / one_second)
  where
    before : ℕ → ℤ
    before zero = pos 0
    before (suc n) = negsuc n

pub record Agent : Type 0 where
  pub project : Bytes
  pub site : Bytes
  pub station : Bytes
  pub instance_id : Bytes
  pub agent_version : Bytes

pub record Device : Type 0 where
  pub id : Bytes
  pub device_type : Bytes
  pub expiry : ℕ

pub data MessageKind : Type 0 where
  kind_rx kind_event kind_tx_result kind_keepalive kind_offline : MessageKind

pub record Header : Type 0 where
  pub schema : ℕ
  pub kind : MessageKind
  pub id : Bytes
  pub project : Bytes
  pub site : Bytes
  pub station : Bytes
  pub instance_id : Bytes
  pub agent_version : Bytes
  pub agent_ts : Bytes

pub record DeviceHeader : Type 0 where
  pub device_id : Bytes
  pub device_type : Option Bytes

-- Builder, with what it uses of Go's libraries: a time in TimeFormat, %d, StdEncoding and
-- utf8.Valid.
pub record Builder : Type 0 where
  pub agent : Agent
  pub format_time : ℕ → Bytes
  pub decimal : ℕ → Bytes
  pub encode_base64 : Bytes → Bytes
  pub utf8_valid : Bytes → Bool

-- header; `id` is what newID returns.
unfoldable pub header : Builder → Bytes → MessageKind → ℕ → Header
header builder id kind at = record {
  schema = 2;
  kind = kind;
  id = id;
  project = builder.agent.project;
  site = builder.agent.site;
  station = builder.agent.station;
  instance_id = builder.agent.instance_id;
  agent_version = builder.agent.agent_version;
  agent_ts = builder.format_time at;
}

-- deviceHeaderOf
unfoldable pub device_header_of : Device → DeviceHeader
unfolding nil_if_empty
device_header_of device = record {
  device_id = device.id;
  device_type = nil_if_empty device.device_type;
}

-- messageExpirySeconds
abbrev pub message_expiry_seconds : ℕ → ℕ
message_expiry_seconds expiry = expiry / one_second

pub record RxMessage : Type 0 where
  pub head : Header
  pub device : DeviceHeader
  pub seq : ℕ
  pub raw_b64 : Bytes
  pub text : Option Bytes
  pub text_valid : Bool

-- Builder.Rx
unfoldable pub rx_message : Builder → Bytes → Device → ℕ → Bytes → ℕ → RxMessage
unfolding header device_header_of
rx_message builder id device seq frame at = record {
  head = header builder id kind_rx at;
  device = device_header_of device;
  seq = seq;
  raw_b64 = builder.encode_base64 frame;
  text = if builder.utf8_valid frame then some frame else none;
  text_valid = builder.utf8_valid frame;
}

pub data OfflineReason : Type 0 where
  offline_shutdown offline_will : OfflineReason

pub record Offline : Type 0 where
  pub head : Header
  pub reason : OfflineReason

-- Builder.Offline
unfoldable pub offline_message : Builder → Bytes → OfflineReason → ℕ → Offline
unfolding header
offline_message builder id reason at = record {
  head = header builder id kind_offline at;
  reason = reason;
}
