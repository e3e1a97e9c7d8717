-- ===== src/Core/Tx/Writing.antt =====
-- The writer's loop: it ends, it retries only what was not begun, and says what it did.
use device_serial_scanner.Common.{
  ℕ, zero, suc, ◌+◌, ◌≤◌, ◌<◌, ◌≡◌, refl, ◌⊎◌, inl, inr, true, false, Option, some, arith,
}
use native.Mathlib.Decide.{ℕ_discrete}
use device_serial_scanner.Device.{not_open}
use device_serial_scanner.Wire.Tx.{TxResult}
use device_serial_scanner.Core.Pipeline.{TxJob, DeviceSettings}
use device_serial_scanner.Core.Tx.{
  expired, Round, RoundEnd, done, again, write_round, Outcome, write_loop, write_tx,
}

-- A round after which the loop goes on: the port was not open and took no byte, the tx may still
-- be written, and attempts are left.
pub record IsRetry (device : DeviceSettings) (job : TxJob) (attempts : ℕ) (r : Round) : Type 0 where
  pub was_closed : r.error ≡ some not_open
  pub took_nothing : r.wrote ≡ 0
  pub running : r.stopping ≡ false
  pub in_time : expired job r.now ≡ false
  pub can_write : device.writable ≡ true
  pub attempts_left : attempts < device.tx_open_attempts

again-IsRetry :
    (device : DeviceSettings) (job : TxJob) (attempts : ℕ) (r : Round)
    → write_round device job attempts r ≡ again
    → IsRetry device job attempts r
unfolding write_round
again-IsRetry device job attempts r h = ground arith

-- How the loop came to its outcome from round `first` on.
pub record Ends (device : DeviceSettings) (job : TxJob) (first : ℕ) (rounds : ℕ → Round)
    (out : Outcome) : Type 0 where
  pub after_first : first ≤ out.attempts
  pub bounded : out.attempts ≤ device.tx_open_attempts
  pub retried : (i : ℕ) → first ≤ i → i < out.attempts → IsRetry device job i (rounds i)
  pub ended :
      write_round device job out.attempts (rounds out.attempts)
      ≡ done out.result out.at out.written_at

RoundEnd-cases :
    (e : RoundEnd)
    → ((result : TxResult) × (at : ℕ) × (written_at : Option ℕ) × (e ≡ done result at written_at))
      ⊎ (e ≡ again)
RoundEnd-cases (done result at written_at) = inl (result, at, written_at, refl)
RoundEnd-cases again = inr refl

module _ (device : DeviceSettings) (job : TxJob) (rounds : ℕ → Round) where
  Ends-done :
      (first : ℕ) (result : TxResult) (at : ℕ) (written_at : Option ℕ)
      → first ≤ device.tx_open_attempts
      → write_round device job first (rounds first) ≡ done result at written_at
      → Ends device job first rounds
          (record { result = result; at = at; written_at = written_at; attempts = first })
  Ends-done first result at written_at b q = record {
    after_first = omega arith;
    bounded = b;
    retried = λ i h k. absurd (omega arith);
    ended = q;
  }

  Ends-again :
      (first : ℕ) (out : Outcome)
      → write_round device job first (rounds first) ≡ again
      → Ends device job (first + 1) rounds out
      → Ends device job first rounds out
  Ends-again first out q e = record {
    after_first = omega (arith, e.after_first);
    bounded = e.bounded;
    retried = λ i h k. elim (ℕ_discrete i first) [
      | yes p ↦ rw p (again-IsRetry device job first (rounds first) q)
      | no p ↦ e.retried i (omega arith) k
    ];
    ended = e.ended;
  }

  write_loop-Ends :
      (fuel first : ℕ)
      → first + fuel ≡ device.tx_open_attempts + 1
      → 1 ≤ fuel
      → (out : Outcome) × (write_loop fuel device job first rounds ≡ some out)
        × Ends device job first rounds out
  unfolding write_loop
  write_loop-Ends zero first e h = absurd (omega arith)
  write_loop-Ends (suc fuel) first e h =
      elim (RoundEnd-cases (write_round device job first (rounds first))) [
        | inl (result, at, written_at, q) ↦ (
          record { result = result; at = at; written_at = written_at; attempts = first },
          rw (q, write_loop),
          Ends-done first result at written_at (omega arith) q,
        )
        | inr q ↦
            let left = (again-IsRetry device job first (rounds first) q).attempts_left in
            let (out, runs, ends) = write_loop-Ends fuel (first + 1) (omega arith) (omega arith) in
            (out, rw (q, write_loop) runs, Ends-again first out q ends)
      ]

  -- Writing a tx always comes to an outcome, whatever its rounds meet: after at most the configured
  -- number of attempts to open the port. Every round before the last found the port not open with
  -- no byte taken, on a tx that had not expired in an agent that was not stopping; so once a byte
  -- has been taken nothing is tried again. The last round ended with the outcome's result.
  pub write_tx-Ends :
      (out : Outcome) × (write_tx device job rounds ≡ some out) × Ends device job 0 rounds out
  unfolding write_tx
  write_tx-Ends = write_loop-Ends (device.tx_open_attempts + 1) 0 (omega arith) (omega arith)
