-- ===== src/Core/New.antt =====
-- The checks of the core's options, internal/core/core.go, New. The transport, the builder and the
-- readers are there or not; the logger and the clock have defaults.
use device_serial_scanner.Common.{
  ℕ, suc, Bool, not, ◌||◌, Option, none, some, List, [], ◌∷◌, Bytes, text_eq, ℤ, at_least,
  if◌then◌else◌,
}
use device_serial_scanner.Wire.Topics.{DeviceTopics, TxRoute, device_route}
use device_serial_scanner.Serial.New.{SerialDevice}

-- A device as the core runs it.
pub record CoreDevice : Type 0 where
  pub reader : Option SerialDevice
  pub id : Bytes
  pub device_type : Bytes
  pub expiry : ℤ
  pub topics : DeviceTopics
  pub tx_open_attempts : ℤ
  pub tx_open_interval : ℤ
  pub tx_remembered_ids : ℤ
  pub broadcast_groups : List TxRoute

-- txRoutes.
abbrev pub tx_routes : CoreDevice → List TxRoute
tx_routes dev = device_route dev.topics ∷ dev.broadcast_groups

pub record CoreOptions : Type 0 where
  pub has_transport : Bool
  pub has_builder : Bool
  pub devices : List CoreDevice
  pub agent_status : Bytes
  pub publish_timeout : ℤ
  pub buffer_size : ℤ
  pub drain_timeout : ℤ
  pub event_buffer_size : ℤ
  pub keepalive_interval : ℤ
  pub missed_keepalives : ℤ

pub data CoreError : Type 0 where
  transport_required builder_required device_required status_topic_required : CoreError
  bad_publish_timeout bad_buffer_size bad_drain_timeout bad_event_buffer_size : CoreError
  bad_keepalive_interval bad_missed_keepalives : CoreError
  no_reader no_topics no_expiry negative_open_settings no_remembered_id : ℕ → CoreError

-- The check of one device.
unfoldable pub device_error : ℕ → CoreDevice → Option CoreError
device_error index dev = elim dev.reader [
  | none ↦ some (no_reader index)
  | some reader ↦
      if text_eq dev.topics.rx []
      then some (no_topics index)
      else if not (at_least 1 dev.expiry)
      then some (no_expiry index)
      else if not (at_least 0 dev.tx_open_attempts) || not (at_least 0 dev.tx_open_interval)
      then some (negative_open_settings index)
      else if not (at_least 1 dev.tx_remembered_ids)
      then some (no_remembered_id index)
      else none
]

-- The loop over the devices: the first error.
unfoldable pub devices_error : ℕ → List CoreDevice → Option CoreError
unfolding device_error
devices_error index [] = none
devices_error index (dev ∷ devices) =
    let rest = devices_error (suc index) devices in
    elim (device_error index dev) [ none ↦ rest | some e ↦ some e ]

-- New: the error, or none for a core.
unfoldable pub new_error : CoreOptions → Option CoreError
unfolding devices_error
new_error opts =
    if not opts.has_transport
    then some transport_required
    else if not opts.has_builder
    then some builder_required
    else elim opts.devices [
      | [] ↦ some device_required
      | dev ∷ devices ↦
          if text_eq opts.agent_status []
          then some status_topic_required
          else if not (at_least 1 opts.publish_timeout)
          then some bad_publish_timeout
          else if not (at_least 1 opts.buffer_size)
          then some bad_buffer_size
          else if not (at_least 1 opts.drain_timeout)
          then some bad_drain_timeout
          else if not (at_least 1 opts.event_buffer_size)
          then some bad_event_buffer_size
          else if not (at_least 1 opts.keepalive_interval)
          then some bad_keepalive_interval
          else if not (at_least 1 opts.missed_keepalives)
          then some bad_missed_keepalives
          else devices_error 0 (dev ∷ devices)
    ]
