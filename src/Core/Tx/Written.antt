-- ===== src/Core/Tx/Written.antt =====
-- A tx is reported and remembered as written exactly when the port took it: writeTx of
-- internal/core/tx.go, with what writeTxs does behind it.
use device_serial_scanner.Common.{
  ℕ, ◌≤◌, ◌≡◌, ◌≢◌, refl, inl, inr, ◌↔◌, true, false, none, some, Option-cases, lookup, remove,
  lookup-remove, text_eq_refl, arith,
}
use device_serial_scanner.Wire.Tx.{tx_result, tx_written, code_written}
use device_serial_scanner.Core.WrittenIds.{WrittenIds, remember}
use device_serial_scanner.Core.WrittenIds.Memory.{IsConsistent, Remembers, remember-Remembers}
use device_serial_scanner.Core.Pipeline.{Pipeline, TxJob, DeviceSettings}
use device_serial_scanner.Core.Tx.{
  expired, Round, done, write_round, Outcome, write_tx, finish_tx, record_tx_result,
}
use device_serial_scanner.Core.Life.Tracked.Ended.{finish_tx-Finished}
use device_serial_scanner.Core.Tx.Writing.{write_tx-Ends}

-- A round in which the port took the tx: the writer answered without an error, on a tx that had
-- not expired, in an agent that was not stopping, for a device that can be written.
pub record IsTaken (device : DeviceSettings) (job : TxJob) (r : Round) : Type 0 where
  pub no_error : r.error ≡ none
  pub running : r.stopping ≡ false
  pub in_time : expired job r.now ≡ false
  pub can_write : device.writable ≡ true

written-IsTaken :
    (device : DeviceSettings) (job : TxJob) (r : Round) (out : Outcome)
    → write_round device job out.attempts r ≡ done out.result out.at out.written_at
    → out.result.code ≡ code_written
    → IsTaken device job r
unfolding write_round tx_result
written-IsTaken device job r out e h = ground arith

IsTaken-round :
    (device : DeviceSettings) (job : TxJob) (r : Round) (attempts : ℕ)
    → IsTaken device job r
    → write_round device job attempts r
      ≡ done (tx_written r.is_open job.ref r.wrote attempts) r.now_after (some r.now_after)
unfolding write_round
IsTaken-round device job r attempts t =
    ground (arith, t.no_error, t.running, t.in_time, t.can_write)

not_written-none :
    (device : DeviceSettings) (job : TxJob) (r : Round) (out : Outcome)
    → write_round device job out.attempts r ≡ done out.result out.at out.written_at
    → out.result.code ≢ code_written
    → out.written_at ≡ none
unfolding write_round tx_result
not_written-none device job r out e h = ground arith

-- What an outcome and the pipeline behind it say of the job's last round.
pub record IsReported (device : DeviceSettings) (job : TxJob) (r : Round) (out : Outcome)
    (line after : Pipeline) : Type 0 where
  pub written_iff : (out.result.code ≡ code_written) ↔ IsTaken device job r
  pub result_is :
      IsTaken device job r → out.result ≡ tx_written r.is_open job.ref r.wrote out.attempts
  pub remembered :
      IsTaken device job r → Remembers job.ref.id r.now_after line.written after.written
  pub forgotten : out.result.code ≢ code_written → after.written ≡ line.written
  pub given_back : lookup job.ref.id after.tx_active ≡ none

finish_tx-given_back :
    (job : TxJob) (out : Outcome) (line after : Pipeline)
    → finish_tx job out line ≡ some after
    → lookup job.ref.id after.tx_active ≡ none
unfolding finish_tx record_tx_result
finish_tx-given_back job out line after h =
    ground (arith, lookup-remove job.ref.id job.ref.id line.tx_active, text_eq_refl job.ref.id)

finish_tx-unwritten :
    (job : TxJob) (out : Outcome) (line : Pipeline)
    → out.written_at ≡ none
    → (after : Pipeline) × (finish_tx job out line ≡ some after) × (after.written ≡ line.written)
unfolding finish_tx record_tx_result
finish_tx-unwritten job out line e =
    let told = record_tx_result out.result out.at line in
    let after : Pipeline = record told { tx_active = remove job.ref.id told.tx_active } in
    let f : finish_tx job out line ≡ some after = rw e refl in
    (after, f, (finish_tx-Finished job out line after f).failed e)

finish_tx-remembered :
    (job : TxJob) (out : Outcome) (line : Pipeline) (at : ℕ) (kept : WrittenIds)
    → out.written_at ≡ some at
    → remember job.ref.id at line.written ≡ some kept
    → (after : Pipeline) × (finish_tx job out line ≡ some after) × (after.written ≡ kept)
unfolding finish_tx record_tx_result
finish_tx-remembered job out line at kept e m = (
  record (record_tx_result out.result out.at line) {
    tx_active = remove job.ref.id (record_tx_result out.result out.at line).tx_active;
    written = kept;
  },
  ground arith,
  refl,
)

module _ (device : DeviceSettings) (job : TxJob) (r : Round) (out : Outcome) (line : Pipeline)
    (ended : write_round device job out.attempts r ≡ done out.result out.at out.written_at) where
  -- The outcome of a round in which the port took the tx.
  taken-outcome :
      IsTaken device job r
      → (out.result ≡ tx_written r.is_open job.ref r.wrote out.attempts)
        × (out.written_at ≡ some r.now_after)
  taken-outcome t = ground (arith, IsTaken-round device job r out.attempts t)

  code-of : IsTaken device job r → out.result.code ≡ code_written
  unfolding tx_result
  code-of t = ground (arith, (taken-outcome t).0)

  written_at-IsTaken : (at : ℕ) → out.written_at ≡ some at → IsTaken device job r
  unfolding write_round
  written_at-IsTaken at h = ground arith

  unwritten-IsReported :
      (after : Pipeline)
      → out.written_at ≡ none
      → finish_tx job out line ≡ some after
      → after.written ≡ line.written
      → IsReported device job r out line after
  unwritten-IsReported after e f w = record {
    written_iff = (written-IsTaken device job r out ended, code-of);
    result_is = λ t. (taken-outcome t).0;
    remembered = λ t. absurd (ground (arith, (taken-outcome t).1));
    forgotten = λ h. w;
    given_back = finish_tx-given_back job out line after f;
  }

  remembered-IsReported :
      (after : Pipeline) (at : ℕ)
      → out.written_at ≡ some at
      → finish_tx job out line ≡ some after
      → Remembers job.ref.id at line.written after.written
      → IsReported device job r out line after
  remembered-IsReported after at e f m =
      let t = written_at-IsTaken at e in
      let same : at ≡ r.now_after = ground (arith, (taken-outcome t).1) in
      record {
        written_iff = (written-IsTaken device job r out ended, code-of);
        result_is = λ t. (taken-outcome t).0;
        remembered = λ t. rw same at m;
        forgotten = λ h. absurd (h (code-of t));
        given_back = finish_tx-given_back job out line after f;
      }

-- On a consistent memory of written ids that may hold one, writing a tx comes to an outcome and
-- its bookkeeping to a pipeline, whatever the rounds meet. The outcome is the code of a written tx
-- exactly when, in the last round, the writer answered without an error, on a tx that had not
-- expired, in an agent that was not stopping, for a device that can be written. Then the result
-- tells the bytes that the writer took, and the id is remembered with the time behind the write,
-- the oldest going out at the limit; with any other outcome the memory is as before. Either way
-- the id is no longer in hand.
pub write_tx-written :
    (device : DeviceSettings) (job : TxJob) (rounds : ℕ → Round) (line : Pipeline)
    → IsConsistent line.written
    → 1 ≤ line.written.limit
    → (out : Outcome) × (after : Pipeline) × (write_tx device job rounds ≡ some out)
      × (finish_tx job out line ≡ some after)
      × IsReported device job (rounds out.attempts) out line after
write_tx-written device job rounds line c p =
    let (out, runs, ends) = write_tx-Ends device job rounds in
    let r = rounds out.attempts in
    elim (Option-cases out.written_at) [
      | inl e ↦
          let (after, f, w) = finish_tx-unwritten job out line e in
          (out, after, runs, f, unwritten-IsReported device job r out line ends.ended after e f w)
      | inr (at, e) ↦
          let (kept, m, rem) = remember-Remembers job.ref.id at line.written c p in
          let (after, f, w) = finish_tx-remembered job out line at kept e m in
          (
            out,
            after,
            runs,
            f,
            remembered-IsReported device job r out line ends.ended after at e f (rw w rem),
          )
    ]
