-- ===== src/Agent/Intake/Deadline.antt =====
-- A tx's message expiry, from the packet that brought it to the writer: internal/transport/mqtt,
-- cmd/skuhus-device-agent/run.go and internal/core/tx.go.
use device_serial_scanner.Common.{
  ℕ, ◌+◌, ◌*◌, ◌≤◌, ◌<◌, ◌≡◌, ◌↔◌, refl, false, none, some, Bytes, arith,
}
use device_serial_scanner.Config.Devices.{second}
use device_serial_scanner.Mqtt.Client.{Publish, message_from_publish}
use device_serial_scanner.Wire.Tx.{TxRef, tx_result, code_written, code_expired}
use device_serial_scanner.Core.Pipeline.{DeviceSettings, TxJob}
use device_serial_scanner.Core.Tx.{
  new_job, expired, Round, done, write_round, failed_round, Outcome, write_tx,
}
use device_serial_scanner.Core.Tx.Writing.{write_tx-Ends}
use device_serial_scanner.Agent.Intake.{tx_message_of}

-- The writer kept to the deadline.
pub record KeepsTo (deadline : ℕ) (rounds : ℕ → Round) (out : Outcome) : Type 0 where
  pub retried : (i : ℕ) → i < out.attempts → ((rounds i).now < deadline) × ((rounds i).wrote ≡ 0)
  pub written : out.result.code ≡ code_written → (rounds out.attempts).now < deadline
  pub expired_iff :
      (out.result.code ≡ code_expired)
      ↔ (((rounds out.attempts).stopping ≡ false) × (deadline ≤ (rounds out.attempts).now))
  pub expired_unwritten : out.result.code ≡ code_expired → out.written_at ≡ none

module _ (device : DeviceSettings) (job : TxJob) (deadline : ℕ) (set : job.deadline ≡ some deadline)
    (r : Round) (out : Outcome)
    (ended : write_round device job out.attempts r ≡ done out.result out.at out.written_at) where
  written-before : out.result.code ≡ code_written → r.now < deadline
  unfolding write_round expired tx_result
  written-before h = ground arith

  expired-when : (out.result.code ≡ code_expired) ↔ ((r.stopping ≡ false) × (deadline ≤ r.now))
  unfolding write_round failed_round expired tx_result
  expired-when = (λ h. ground arith, λ (s, h). ground arith)

  expired-none : out.result.code ≡ code_expired → out.written_at ≡ none
  unfolding write_round tx_result
  expired-none h = ground arith

in_time-before :
    (job : TxJob) (deadline now : ℕ)
    → job.deadline ≡ some deadline
    → expired job now ≡ false
    → now < deadline
unfolding expired
in_time-before job deadline now set h = ground arith

-- A tx that a packet brought at the time `received`, with a message expiry of so many seconds: its
-- writing comes to an outcome; it is written only in a round that began before the expiry had
-- passed since then, and a round that another follows began before it too and took no byte. The
-- outcome is an expired tx exactly when the last round began at that time or behind it, in an agent
-- that was not stopping; then no write is recorded.
pub write_tx-KeepsTo :
    (device : DeviceSettings) (packet : Publish) (seconds received : ℕ) (ref : TxRef) (raw : Bytes)
    (rounds : ℕ → Round)
    → packet.message_expiry ≡ some seconds
    → (out : Outcome) × (write_tx device
          (new_job ref raw (tx_message_of (message_from_publish packet received)))
          rounds
        ≡ some out)
      × KeepsTo (received + seconds * second) rounds out
unfolding tx_message_of message_from_publish
write_tx-KeepsTo device packet seconds received ref raw rounds e =
    let job = new_job ref raw (tx_message_of (message_from_publish packet received)) in
    let deadline = received + seconds * second in
    let set : job.deadline ≡ some deadline = rw e refl in
    let (out, runs, ends) = write_tx-Ends device job rounds in
    let r = rounds out.attempts in
    (
      out,
      runs,
      record {
        retried = λ i h.
            let again = ends.retried i (omega arith) h in
            (in_time-before job deadline (rounds i).now set again.in_time, again.took_nothing);
        written = written-before device job deadline set r out ends.ended;
        expired_iff = expired-when device job deadline set r out ends.ended;
        expired_unwritten = expired-none device job deadline set r out ends.ended;
      },
    )
