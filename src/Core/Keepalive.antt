-- ===== src/Core/Keepalive.antt =====
-- The keepalive and the offline message, internal/core/status.go, with keepaliveState of
-- internal/core/pipeline.go, and the message of a port event (buildEvent). Marshalling, a message's
-- id and the clock enter as arguments; the broker's answer to a publish is only logged.
pub mod Told
use device_serial_scanner.Common.{
  int64, residue, ℕ, ◌*◌, Bool, Option, none, some, List, [], ◌∷◌, map, Bytes, Assoc, lookup,
  length, ℤ,
}
use device_serial_scanner.Device.{
  Event, EventKind, port_opened, port_closed, port_lost, port_open_failed, bytes_discarded,
  bytes_read, error_text,
}
use device_serial_scanner.Wire.Topics.{TxRoute}
use device_serial_scanner.Wire.Messages.{
  Device, Builder, one_second, Offline, offline_message, offline_shutdown,
}
use device_serial_scanner.Wire.Messages.Events.{
  EventMessage, port_opened_message, port_closed_message, port_lost_message,
  port_open_failed_message, bytes_discarded_message,
}
use device_serial_scanner.Wire.Messages.Keepalives.{
  TxRouteState, DeviceState, Keepalive, keepalive_message,
}
use device_serial_scanner.Core.Pipeline.{Pipeline}

-- A pipeline with what of its device the messages carry, and the topics that reach its tx.
pub record Line : Type 0 where
  pub wire : Device
  pub path : Bytes
  pub tx_routes : List TxRoute
  pub state : Pipeline

-- keepaliveState
unfoldable pub keepalive_state : Assoc ℕ → Line → DeviceState
unfolding lookup
keepalive_state answers line = record {
  device = line.wire;
  is_open = line.state.is_open;
  counters = record (line.state.counters) { buffer_depth = length line.state.frames };
  tx_routes =
      map (λ route. record { route = route; answer = lookup route.topic answers }) line.tx_routes;
}

-- What the core's options say of the agent's own messages.
pub record AgentOptions : Type 0 where
  pub builder : Builder
  pub started : ℕ
  pub keepalive_interval : ℕ
  pub missed_keepalives : ℕ
  pub agent_status : Bytes

-- A message handed to the transport: the topic, the payload, and the expiry where there is one.
pub record Sent : Type 0 where
  pub topic : Bytes
  pub payload : Bytes
  pub expiry : Option ℤ

-- publishKeepalive's message, from a snapshot of the broker's answers.
unfoldable pub keepalive_of : AgentOptions → Bytes → ℕ → Assoc ℕ → List Line → Keepalive
unfolding keepalive_state keepalive_message
keepalive_of opts id now answers lines =
    keepalive_message opts.builder id opts.started now opts.keepalive_interval
      opts.missed_keepalives (map (keepalive_state answers) lines)

-- What goes to the transport, where the message could be encoded.
unfoldable pub hand_over : Bytes → Option ℤ → Option Bytes → Option Sent
hand_over topic expiry none = none
hand_over topic expiry (some payload) =
    some (record { topic = topic; payload = payload; expiry = expiry })

-- publishKeepalive; none where the message cannot be encoded. A time.Duration is an int64.
unfoldable pub publish_keepalive :
    (Keepalive → Option Bytes) → AgentOptions → Bytes → ℕ → Assoc ℕ → List Line → Option Sent
unfolding keepalive_of int64 hand_over
publish_keepalive encode opts id now answers lines =
    let message = keepalive_of opts id now answers lines in
    hand_over opts.agent_status (some (int64 (residue message.gone_after_s * one_second)))
      (encode message)

-- What a keepalive finds when its turn comes: the message's id, the clock, the broker's answers and
-- the pipelines.
pub record Turn : Type 0 where
  pub id : Bytes
  pub now : ℕ
  pub answers : Assoc ℕ
  pub lines : List Line

-- sendKeepalives: one keepalive for each connection that comes up and each interval that passes,
-- until it is stopped.
unfoldable pub send_keepalives :
    (Keepalive → Option Bytes) → AgentOptions → List Turn → List (Option Sent)
unfolding publish_keepalive
send_keepalives encode opts [] = []
send_keepalives encode opts (turn ∷ turns) =
    publish_keepalive encode opts turn.id turn.now turn.answers turn.lines
    ∷ send_keepalives encode opts turns

-- publishOffline
unfoldable pub publish_offline : (Offline → Option Bytes) → AgentOptions → Bytes → ℕ → Option Sent
unfolding offline_message hand_over
publish_offline encode opts id now =
    hand_over opts.agent_status none (encode (offline_message opts.builder id offline_shutdown now))

-- buildEvent, by the kind of the event.
unfoldable pub build_message : EventKind → Builder → Bytes → Line → Event → Option EventMessage
unfolding error_text
build_message port_opened builder id line e =
    some (port_opened_message builder id line.wire line.path e.at)
build_message port_closed builder id line e =
    some (port_closed_message builder id line.wire line.path e.at)
build_message port_lost builder id line e =
    some (port_lost_message builder id line.wire line.path e.error_class (error_text e) e.at)
build_message port_open_failed builder id line e =
    some (port_open_failed_message builder id line.wire line.path e.error_class (error_text e) e.at)
build_message bytes_discarded builder id line e =
    some (bytes_discarded_message builder id line.wire e.reason e.bytes e.at)
build_message bytes_read builder id line e = none

-- buildEvent
abbrev pub build_event : Builder → Bytes → Line → Event → Option EventMessage
build_event builder id line e = build_message e.kind builder id line e
