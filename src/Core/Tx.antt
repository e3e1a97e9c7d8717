-- ===== src/Core/Tx.antt =====
-- Tx, internal/core/tx.go: admission, the writer's loop, and what is recorded of each. Log records
-- are left out. What other goroutines decide (the clock, the stop, the port) enters as arguments.
pub mod Writing
pub mod Written
pub mod Admission
use device_serial_scanner.Common.{
  ℕ, zero, suc, ◌+◌, ◌-◌, Bool, true, false, not, ◌&&◌, Option, none, some, List, [], ◌∷◌, Bytes,
  Assoc, lookup, remove, put, codes, min, leb, ◌==◌, if◌then◌else◌,
}
use device_serial_scanner.Device.{WriteError, not_open, context_ended, port_error_of, other_error}
use device_serial_scanner.Queue.{push, push_status, tx}
use device_serial_scanner.Wire.Counters.{ErrorClass, unknown}
use device_serial_scanner.Wire.Tx.{
  TxRef, TxStage, queued, writing, TxState, written, failed, TxCode, code_already_written,
  code_invalid_id, TxProblem, TxResult, tx_result, tx_accepted, tx_written, tx_already_written,
  tx_in_progress, tx_invalid_message, tx_invalid_id, tx_port_unavailable, tx_write_failed,
  tx_expired, tx_agent_stopping,
}
use device_serial_scanner.Wire.ReadTx.{Codec, read_tx, ReadResult, readable, unreadable}
use device_serial_scanner.Core.WrittenIds.{remember}
use device_serial_scanner.Core.Pipeline.{Pipeline, TxJob, Standing, DeviceSettings, count_tx}

-- `expiry` is none for a message without one.
pub record TxMessage : Type 0 where
  pub topic : Bytes
  pub payload : Bytes
  pub expiry : Option ℕ
  pub received : ℕ

-- The switch of recordTxResult: what a result counts as.
unfoldable pub count_result : TxCode → TxState → Pipeline → Pipeline
count_result code_already_written state line = line
count_result code written line = count_tx true line
count_result code failed line = count_tx false line
count_result code state line = line

-- recordTxResult: the result is counted and queued for the status topic.
unfoldable pub record_tx_result : TxResult → ℕ → Pipeline → Pipeline
unfolding count_result push_status
record_tx_result result at line =
    let counted = count_result result.code result.state line in
    record counted {
      status =
          (push_status line.event_limit (tx (record { result = result; at = at })) line.status).0;
    }

-- The result of a tx that could not be read.
unfoldable pub problem_result : Bool → TxRef → TxProblem → TxResult
problem_result is_open ref problem = elim problem.code [
  | code_invalid_id ↦ tx_invalid_id is_open ref
  | _ ↦ tx_invalid_message is_open ref problem.text
]

abbrev pub new_job : TxRef → Bytes → TxMessage → TxJob
new_job ref raw message = record {
  ref = ref;
  payload = raw;
  received = message.received;
  deadline = elim message.expiry [ none ↦ none | some e ↦ some (message.received + e) ];
}

-- A tx is taken: it is in hand, its accepted result goes out, and the writer gets the job.
unfoldable pub take_on : TxRef → Bytes → ℕ → TxMessage → Pipeline → Pipeline
unfolding record_tx_result
take_on ref raw now message line =
    let held : Pipeline = record line {
      tx_active = put ref.id (record { stage = queued; since = now; written = 0 }) line.tx_active;
    } in
    let told = record_tx_result (tx_accepted line.is_open ref) now held in
    record told { tx = push (new_job ref raw message) told.tx }

-- admitTxTo behind the reading of the message, at the time `now`.
unfoldable pub admit_read : ℕ → Bool → TxMessage → TxRef → Bytes → Pipeline → Pipeline
admit_read now stopping message ref raw line = elim (lookup ref.id line.tx_active) [
  | some earlier ↦
      record_tx_result (tx_in_progress line.is_open ref earlier.stage earlier.since earlier.written)
        now line
  | none ↦ elim (lookup ref.id line.written.at) [
    | some written_at ↦ record_tx_result (tx_already_written line.is_open ref written_at) now line
    | none ↦
        if stopping
        then record_tx_result (tx_agent_stopping line.is_open ref 0) now line
        else take_on ref raw now message line
  ]
]

-- admitTxTo, on what ReadTx made of the message.
unfoldable pub admit_as : ℕ → Bool → TxMessage → Pipeline → TxRef → ReadResult → Pipeline
admit_as now stopping message line ref (readable raw) = admit_read now stopping message ref raw line
admit_as now stopping message line ref (unreadable problem) =
    record_tx_result (problem_result line.is_open ref problem) now line

-- admitTxTo.
unfoldable pub admit_tx_to : Codec → ℕ → Bool → TxMessage → Pipeline → Pipeline
admit_tx_to codec now stopping message line =
    let (ref, read) = read_tx codec message.payload in admit_as now stopping message line ref read

-- job.expired.
unfoldable pub expired : TxJob → ℕ → Bool
expired job now = elim job.deadline [ none ↦ false | some deadline ↦ leb deadline now ]

-- What one round of the writer's loop meets: the clock before and after the write, whether the
-- agent is stopping, what the writer answers, whether the write context has ended, and the port's
-- state and last failure.
pub record Round : Type 0 where
  pub now : ℕ
  pub stopping : Bool
  pub is_open : Bool
  pub wrote : ℕ
  pub error : Option WriteError
  pub now_after : ℕ
  pub cut : Bool
  pub failure : ErrorClass × Bytes

-- How a round ends: with a result, its time, and when the tx was written if it was; or with
-- another attempt, once the port had its chance to open.
pub data RoundEnd : Type 0 where
  done : TxResult → ℕ → Option ℕ → RoundEnd
  again : RoundEnd

abbrev pub cannot_be_written : Bytes
cannot_be_written = codes "this device cannot be written"

-- writeFailureClass, and the loss's class where the port was closed under the write.
unfoldable pub failure_class_of : WriteError → ErrorClass × Bytes → ErrorClass × Bytes
failure_class_of not_open failure = failure
failure_class_of context_ended failure = (unknown, codes "context canceled")
failure_class_of (port_error_of class text) failure = (class, text)
failure_class_of (other_error text) failure = (unknown, text)

-- Whether the writer stopped because the write context ended.
unfoldable pub is_cut : Bool → WriteError → Bool
is_cut cut context_ended = cut
is_cut cut _ = false

-- Whether the write can be tried again: the port was not open, and nothing was written.
unfoldable pub is_retryable : WriteError → ℕ → Bool
is_retryable not_open wrote = wrote == 0
is_retryable _ wrote = false

-- The end of a round whose write failed.
unfoldable pub failed_round : DeviceSettings → TxJob → ℕ → Round → WriteError → RoundEnd
unfolding failure_class_of is_cut is_retryable
failed_round device job attempts r e =
    if is_retryable e r.wrote
    then (if leb device.tx_open_attempts attempts
        then done (tx_port_unavailable r.is_open job.ref r.failure.0 r.failure.1 attempts)
            r.now_after none
        else again)
    else if is_cut r.cut e
    then done (tx_agent_stopping r.is_open job.ref r.wrote) r.now_after none
    else (let (class, text) = failure_class_of e r.failure in
        done (tx_write_failed r.is_open job.ref class text r.wrote attempts) r.now_after none)

-- One round of writeTx.
unfoldable pub write_round : DeviceSettings → TxJob → ℕ → Round → RoundEnd
unfolding expired failed_round
write_round device job attempts r =
    if r.stopping
    then done (tx_agent_stopping r.is_open job.ref 0) r.now none
    else if expired job r.now
    then done (tx_expired r.is_open job.ref attempts) r.now none
    else if not device.writable
    then done (tx_port_unavailable r.is_open job.ref unknown cannot_be_written attempts) r.now none
    else elim r.error [
      | none ↦ done (tx_written r.is_open job.ref r.wrote attempts) r.now_after (some r.now_after)
      | some e ↦ failed_round device job attempts r e
    ]

-- What writeTx reports: the result and its time, when the tx was written if it was, and the
-- attempts to open the port.
pub record Outcome : Type 0 where
  pub result : TxResult
  pub at : ℕ
  pub written_at : Option ℕ
  pub attempts : ℕ

-- writeTx, with fuel for its rounds; `none` means that the fuel ran out. The round with so many
-- attempts behind it meets the entry of `rounds` at that number.
unfoldable pub write_loop : ℕ → DeviceSettings → TxJob → ℕ → (ℕ → Round) → Option Outcome
write_loop zero device job attempts rounds = none
write_loop (suc fuel) device job attempts rounds =
    let rest = write_loop fuel device job (attempts + 1) rounds in
    elim (write_round device job attempts (rounds attempts)) [
      | done result at written_at ↦
          some (record { result = result; at = at; written_at = written_at; attempts = attempts })
      | again ↦ rest
    ]

-- One round for each open attempt, and the last.
unfoldable pub write_tx : DeviceSettings → TxJob → (ℕ → Round) → Option Outcome
unfolding write_loop
write_tx device job rounds = write_loop (device.tx_open_attempts + 1) device job 0 rounds

-- How long awaitPort waits at most, at the time `now`.
unfoldable pub await_wait : DeviceSettings → TxJob → ℕ → ℕ
await_wait device job now = elim job.deadline [
  | none ↦ device.tx_open_interval
  | some deadline ↦ min device.tx_open_interval (deadline - now)
]

-- awaitPort first drops a signal left from an earlier open.
abbrev pub drop_opened : Pipeline → Pipeline
drop_opened line = record line { opened = false }

-- writeTxs behind writeTx: the result was recorded, the job leaves txActive, and a written id is
-- remembered, all before the next job. `none` is a fault in `remember`.
unfoldable pub finish_tx : TxJob → Outcome → Pipeline → Option Pipeline
unfolding record_tx_result
finish_tx job out line =
    let told = record_tx_result out.result out.at line in
    let left : Pipeline = record told { tx_active = remove job.ref.id told.tx_active } in
    elim out.written_at [
      | none ↦ some left
      | some at ↦ elim (remember job.ref.id at left.written) [
        | none ↦ none
        | some kept ↦ some (record left { written = kept })
      ]
    ]
