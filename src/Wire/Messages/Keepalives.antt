-- ===== src/Wire/Messages/Keepalives.antt =====
-- The keepalive, internal/wire/messages.go: the state of every device, and the Builder's message.
use device_serial_scanner.Common.{int64, ℕ, ◌*◌, ◌/◌, Bool, Option, List, map, Bytes, codes, ℤ}
use device_serial_scanner.Wire.Counters.{DeviceCounters}
use device_serial_scanner.Wire.Topics.{TxRoute, TxScope}
use device_serial_scanner.Wire.Tx.{nil_if_empty}
use device_serial_scanner.Wire.Messages.{
  Header, DeviceHeader, Device, Builder, header, kind_keepalive, device_header_of,
  message_expiry_seconds, one_second, seconds_since,
}

-- TxRouteState: a topic with the broker's answer on the current connection, `none` until then
-- (SubscribeAnswer).
pub record TxRouteState : Type 0 where
  pub route : TxRoute
  pub answer : Option ℕ

pub record DeviceState : Type 0 where
  pub device : Device
  pub is_open : Bool
  pub counters : DeviceCounters
  pub tx_routes : List TxRouteState

pub record TxTopic : Type 0 where
  pub topic : Bytes
  pub scope : TxScope
  pub group : Option Bytes
  pub suback : Option ℕ

pub record KeepaliveDevice : Type 0 where
  pub device : DeviceHeader
  pub device_open : Bool
  pub message_expiry_s : ℕ
  pub tx_topics : List TxTopic
  pub counters : DeviceCounters

pub record Keepalive : Type 0 where
  pub head : Header
  pub protocol_version : Bytes
  pub uptime_s : ℤ
  pub interval_s : ℕ
  pub gone_after_s : ℤ
  pub devices : List KeepaliveDevice

unfoldable pub tx_topic : TxRouteState → TxTopic
unfolding nil_if_empty
tx_topic state = record {
  topic = state.route.topic;
  scope = state.route.scope;
  group = nil_if_empty state.route.group;
  suback = state.answer;
}

unfoldable pub keepalive_device : DeviceState → KeepaliveDevice
unfolding tx_topic device_header_of
keepalive_device state = record {
  device = device_header_of state.device;
  device_open = state.is_open;
  message_expiry_s = message_expiry_seconds state.device.expiry;
  tx_topics = map tx_topic state.tx_routes;
  counters = state.counters;
}

-- Builder.Keepalive
unfoldable pub keepalive_message : Builder → Bytes → ℕ → ℕ → ℕ → ℕ → List DeviceState → Keepalive
unfolding header keepalive_device int64 seconds_since
keepalive_message builder id started at interval missed devices = record {
  head = header builder id kind_keepalive at;
  protocol_version = codes "2.2.0";
  uptime_s = seconds_since started at;
  interval_s = interval / one_second;
  gone_after_s = int64 (interval / one_second * missed);
  devices = map keepalive_device devices;
}
