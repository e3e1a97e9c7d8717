-- ===== src/Device.antt =====
-- What the core needs of an attached device, internal/device/device.go.
use device_serial_scanner.Common.{ℕ, Option, none, some, [], Bytes}
use device_serial_scanner.Wire.Counters.{ErrorClass, DiscardReason}

pub data EventKind : Type 0 where
  port_opened port_closed port_lost port_open_failed bytes_discarded bytes_read : EventKind

-- `err` is the message of the event's error. An event with no class has the empty string for one.
pub record Event : Type 0 where
  pub device_id : Bytes
  pub kind : EventKind
  pub at : ℕ
  pub error_class : ErrorClass
  pub err : Option Bytes
  pub reason : DiscardReason
  pub bytes : ℕ

-- Event.ErrorText.
unfoldable pub error_text : Event → Bytes
error_text event = elim event.err [ none ↦ [] | some text ↦ text ]

pub record Frame : Type 0 where
  pub device_id : Bytes
  pub raw : Bytes
  pub at : ℕ

-- How a write ends that is not a success: the port was not open, or was closed under the write;
-- the context ended; a *PortError with its class; any other error.
pub data WriteError : Type 0 where
  not_open context_ended : WriteError
  port_error_of : ErrorClass → Bytes → WriteError
  other_error : Bytes → WriteError
