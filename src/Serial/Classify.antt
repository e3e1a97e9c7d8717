-- ===== src/Serial/Classify.antt =====
-- `classify`, internal/device/serial/serial.go: the class of a failure.
use device_serial_scanner.Common.{Option, none, some, Bytes}
use device_serial_scanner.Wire.Counters.{
  ErrorClass, absent, busy, permission_denied, read_only, disconnected, port_error, unknown,
}

-- The operating system's errors that the agent tells apart.
pub data Errno : Type 0 where
  eio enodev enxio enoent eacces eperm erofs ebusy other_errno : Errno

-- The codes of the serial library's PortError that the agent tells apart.
pub data PortCode : Type 0 where
  code_port_closed code_port_not_found code_permission_denied code_port_busy other_code : PortCode

-- A failure as classify reads it: the errno and the PortError that errors.Is and errors.As find
-- in it, and its message.
pub record Failure : Type 0 where
  pub errno : Option Errno
  pub code : Option PortCode
  pub text : Bytes

unfoldable pub classify_code : PortCode → ErrorClass
classify_code code_port_closed = disconnected
classify_code code_port_not_found = absent
classify_code code_permission_denied = permission_denied
classify_code code_port_busy = busy
classify_code other_code = port_error

unfoldable pub classify_port_error : Option PortCode → ErrorClass
unfolding classify_code
classify_port_error none = unknown
classify_port_error (some code) = classify_code code

-- An errno comes first; one that the agent does not tell apart leaves it to the PortError.
unfoldable pub classify : Failure → ErrorClass
unfolding classify_port_error
classify failure = elim failure.errno [
  | some eio ↦ disconnected
  | some enodev ↦ disconnected
  | some enxio ↦ disconnected
  | some enoent ↦ absent
  | some eacces ↦ permission_denied
  | some eperm ↦ permission_denied
  | some erofs ↦ read_only
  | some ebusy ↦ busy
  | some other_errno ↦ classify_port_error failure.code
  | none ↦ classify_port_error failure.code
]
