-- ===== src/Core/Pipeline.antt =====
-- One device's pipeline, internal/core/pipeline.go, and the report of a port event,
-- internal/core/status.go.

pub mod Tally
pub mod Presence
use device_serial_scanner.Common.{
  ℕ, zero, ◌+◌, Bool, true, false, not, ◌&&◌, Option, none, some, List, [], ◌∷◌, Bytes, Assoc,
  codes, length, u64, text_eq, if◌then◌else◌,
}
use device_serial_scanner.Device.{
  Event, EventKind, port_opened, port_closed, port_lost, port_open_failed, bytes_discarded,
  bytes_read, Frame, error_text,
}
use device_serial_scanner.Queue.{WaitingQueue, StatusItem, event, push_status}
use device_serial_scanner.Wire.Counters.{
  ErrorClass, unknown, unlisted, class_known, DeviceCounters, increment, add_discard_count,
  add_open_failure,
}
use device_serial_scanner.Wire.Tx.{TxRef, TxStage, TxResult}
use device_serial_scanner.Core.WrittenIds.{WrittenIds}

-- One tx taken for the port: the part of a txJob that never changes. `deadline` is none for the
-- zero time.
pub record TxJob : Type 0 where
  pub ref : TxRef
  pub payload : Bytes
  pub received : ℕ
  pub deadline : Option ℕ

-- Where a tx stands: the part of a txJob that its mutex guards. The queue and the map `txActive`
-- share the job by a pointer; here the map alone holds this part, under the job's id.
pub record Standing : Type 0 where
  pub stage : TxStage
  pub since : ℕ
  pub written : ℕ

-- A tx result and when it was produced.
pub record TxResultItem : Type 0 where
  pub result : TxResult
  pub at : ℕ

-- The settings of a device that the core reads.
pub record DeviceSettings : Type 0 where
  pub id : Bytes
  pub expiry : ℕ
  pub tx_open_attempts : ℕ
  pub tx_open_interval : ℕ
  pub writable : Bool

abbrev pub StatusQueue : Type 0
StatusQueue = WaitingQueue (StatusItem Event TxResultItem)

pub record Pipeline : Type 0 where
  pub device : DeviceSettings
  pub event_limit : ℕ
  pub frames : List Frame
  pub status : StatusQueue
  pub tx : WaitingQueue TxJob
  pub seq : ℕ
  pub opened : Bool
  pub tx_active : Assoc Standing
  pub written : WrittenIds
  pub is_open : Bool
  pub failure_class : ErrorClass
  pub failure : Bytes
  pub counters : DeviceCounters

-- The port failed, with this event's class and text.
abbrev failed_by : Event → Pipeline → Pipeline
failed_by e line = record line {
  is_open = false;
  failure_class = e.error_class;
  failure = error_text e;
}

-- Core.count, by the kind of the event.
unfoldable pub count_kind : EventKind → Event → Pipeline → Pipeline
unfolding error_text add_discard_count add_open_failure
count_kind port_opened e line = record line { is_open = true; opened = true }
count_kind port_closed e line = record line { is_open = false }
count_kind port_lost e line = failed_by e line
count_kind port_open_failed e line = record (failed_by e line) {
  counters = record (line.counters) {
    failed_opens = add_open_failure e.error_class line.counters.failed_opens;
  };
}
count_kind bytes_discarded e line = record line {
  counters = record (line.counters) {
    discards = add_discard_count e.reason line.counters.discards;
  };
}
count_kind bytes_read e line = record line {
  counters = record (line.counters) { rx_bytes = u64 (line.counters.rx_bytes + e.bytes) };
}

abbrev pub count : Event → Pipeline → Pipeline
count e = count_kind e.kind e

abbrev pub count_frame : Pipeline → Pipeline
count_frame line = record line {
  counters = record (line.counters) { rx_frames = increment line.counters.rx_frames };
}

-- countTx: written, or failed.
abbrev pub count_tx : Bool → Pipeline → Pipeline
count_tx true line = record line {
  counters = record (line.counters) { tx_written = increment line.counters.tx_written };
}
count_tx false line = record line {
  counters = record (line.counters) { tx_failed = increment line.counters.tx_failed };
}

abbrev pub count_publish_failure : Pipeline → Pipeline
count_publish_failure line = record line {
  counters = record (line.counters) { publish_failures = increment line.counters.publish_failures };
}

abbrev pub port_not_open_text : Bytes
port_not_open_text = codes "the port is not open"

-- lastFailure.
unfoldable pub last_failure : Pipeline → ErrorClass × Bytes
last_failure line = elim line.failure [
  | [] ↦ (unknown, port_not_open_text)
  | c ∷ cs ↦ (line.failure_class, line.failure)
]

-- The counters of keepaliveState.
abbrev pub keepalive_counters : Pipeline → DeviceCounters
keepalive_counters line = record (line.counters) { buffer_depth = length line.frames }

-- Whether a class is the empty string.
unfoldable pub class_empty : ErrorClass → Bool
class_empty (unlisted []) = true
class_empty _ = false

-- A class that the wire does not define is treated as unknown; no class stays none.
unfoldable pub known_class : ErrorClass → ErrorClass
unfolding class_known class_empty
known_class class = if not (class_empty class) && not (class_known class) then unknown else class

-- Core.report: the event is counted, and queued unless it only counts bytes. The second component
-- is the event that was dropped for it.
unfoldable pub report : Event → Pipeline → Pipeline × Option (StatusItem Event TxResultItem)
unfolding count_kind push_status known_class
report e line =
    let e' : Event = record e { error_class = known_class e.error_class } in
    let counted = count e' line in
    elim e.kind [
      | bytes_read ↦ (counted, none)
      | _ ↦
          let (status, dropped) = push_status line.event_limit (event e') line.status in
          (record counted { status = status }, dropped)
    ]
