-- ===== src/Wire/Messages/Events.antt =====
-- The messages of what happened to a device: Event of internal/wire/messages.go, and the Builder's
-- methods for it.
use device_serial_scanner.Common.{ℕ, Bool, true, false, [], ◌∷◌, ◌++◌, Bytes, Assoc, codes}
use device_serial_scanner.Wire.Counters.{
  ErrorClass, absent, busy, permission_denied, read_only, disconnected, port_error, unknown,
  unlisted, DiscardReason, oversize, inter_char_timeout, resync, empty_frame, unlisted_reason,
}
use device_serial_scanner.Wire.Messages.{
  Header, DeviceHeader, Device, Builder, header, kind_event, device_header_of,
  message_expiry_seconds,
}

pub data EventCode : Type 0 where
  event_port_opened event_port_closed event_port_lost event_port_open_failed : EventCode
  event_bytes_discarded : EventCode

-- A value of a detail, which is a map[string]any.
pub data Fact : Type 0 where
  text_fact : Bytes → Fact
  number_fact : ℕ → Fact

pub record EventMessage : Type 0 where
  pub head : Header
  pub device : DeviceHeader
  pub device_open : Bool
  pub message_expiry_s : ℕ
  pub code : EventCode
  pub text : Bytes
  pub detail : Assoc Fact

-- The strings of the classes and the reasons.
unfoldable pub class_text : ErrorClass → Bytes
class_text absent = codes "absent"
class_text busy = codes "busy"
class_text permission_denied = codes "permission_denied"
class_text read_only = codes "read_only"
class_text disconnected = codes "disconnected"
class_text port_error = codes "port_error"
class_text unknown = codes "unknown"
class_text (unlisted name) = name

unfoldable pub reason_text : DiscardReason → Bytes
reason_text oversize = codes "oversize"
reason_text inter_char_timeout = codes "inter_char_timeout"
reason_text resync = codes "resync"
reason_text empty_frame = codes "empty_frame"
reason_text (unlisted_reason name) = name

-- The facts of a failure.
abbrev failure_facts : Bytes → ErrorClass → Bytes → Assoc Fact
failure_facts path class err_text =
    (codes "path", text_fact path)
    ∷ (codes "error_class", text_fact (class_text class))
    ∷ (codes "error", text_fact err_text)
    ∷ []

module _ (builder : Builder) (id : Bytes) (device : Device) where
  -- Builder.event
  unfoldable pub event_message : Bool → EventCode → Bytes → Assoc Fact → ℕ → EventMessage
  unfolding header device_header_of
  event_message is_open code text detail at = record {
    head = header builder id kind_event at;
    device = device_header_of device;
    device_open = is_open;
    message_expiry_s = message_expiry_seconds device.expiry;
    code = code;
    text = text;
    detail = detail;
  }

  -- Builder.PortOpened
  abbrev pub port_opened_message : Bytes → ℕ → EventMessage
  port_opened_message path at =
      event_message true event_port_opened (codes "opened " ++ path)
        ((codes "path", text_fact path) ∷ []) at

  -- Builder.PortClosed
  abbrev pub port_closed_message : Bytes → ℕ → EventMessage
  port_closed_message path at =
      event_message false event_port_closed (codes "closed " ++ path)
        ((codes "path", text_fact path) ∷ []) at

  -- Builder.PortLost
  abbrev pub port_lost_message : Bytes → ErrorClass → Bytes → ℕ → EventMessage
  port_lost_message path class err_text at =
      event_message false event_port_lost
        (codes "port lost: " ++ (err_text ++ (codes " (" ++ (class_text class ++ codes ")"))))
        (failure_facts path class err_text) at

  -- Builder.PortOpenFailed
  abbrev pub port_open_failed_message : Bytes → ErrorClass → Bytes → ℕ → EventMessage
  port_open_failed_message path class err_text at =
      event_message false event_port_open_failed
        (codes "could not open the port: "
          ++ (err_text ++ (codes " (" ++ (class_text class ++ codes ")"))))
        (failure_facts path class err_text) at

  -- Builder.BytesDiscarded
  abbrev pub bytes_discarded_message : DiscardReason → ℕ → ℕ → EventMessage
  bytes_discarded_message reason bytes at =
      event_message true event_bytes_discarded
        (codes "discarded " ++ (builder.decimal bytes ++ (codes " bytes: " ++ reason_text reason)))
        ((codes "reason", text_fact (reason_text reason)) ∷ (codes "bytes", number_fact bytes) ∷ [])
        at
