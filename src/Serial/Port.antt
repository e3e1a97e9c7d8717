-- ===== src/Serial/Port.antt =====
-- Writing through the port that a session holds open, internal/device/serial/serial.go: sharedPort
-- and Device.Write. The library's port is a parameter; the lock makes each chunk one step.
pub mod Chunk
pub mod Delivery
use device_serial_scanner.Common.{
  ℕ, zero, suc, ◌+◌, Bool, true, false, Option, none, some, List, [], ◌∷◌, ◌++◌, Bytes, codes,
  length, take, drop, min, ltb, ◌==◌, if◌then◌else◌,
}
use device_serial_scanner.Device.{WriteError, not_open, context_ended, port_error_of, other_error}
use device_serial_scanner.Serial.Classify.{Failure, classify}

-- Why a write through the shared port ended early.
pub data Fault : Type 0 where
  closed_fault ended_fault no_bytes_fault : Fault
  port_fault : Failure → Fault

-- What one call reports: the port behind it, how many bytes were written, and the fault.
pub record Sent {ℓ} (P : Type ℓ) : Type ℓ where
  pub port : P
  pub written : ℕ
  pub fault : Option Fault

-- The same for a whole tx, with the calls of `progress`.
pub record Written {ℓ} (P : Type ℓ) : Type ℓ where
  pub port : P
  pub written : ℕ
  pub fault : Option Fault
  pub progress : List ℕ

-- What the other goroutines have decided when a chunk's turn comes.
pub record Moment : Type 0 where
  pub ended : Bool
  pub closed : Bool

-- The progress function is called with what was written so far, if the chunk moved it.
abbrev pub noted : ℕ → ℕ → List ℕ → List ℕ
noted accepted written calls = if accepted == 0 then calls else written ∷ calls

module _ {ℓ} {P : Type ℓ} where
  -- The rest of the loop of `write`, behind the calls of `progress` of a chunk.
  abbrev pub continue_with : ℕ → ℕ → Option (Written P) → Option (Written P)
  continue_with accepted written none = none
  continue_with accepted written (some w) =
      some (record w { progress = noted accepted written w.progress })

  -- A round of `write`: the chunk was sent, and the loop goes on or ends.
  abbrev pub after_chunk : ℕ → Sent P → Option (Written P) → Option (Written P)
  after_chunk written sent rest = elim sent.fault [
    | some fault ↦ some (record {
      port = sent.port;
      written = written + sent.written;
      fault = some fault;
      progress = noted sent.written (written + sent.written) [];
    })
    | none ↦ continue_with sent.written (written + sent.written) rest
  ]

-- The library's port: one write(2) for each call of Write.
module _ {ℓ} {P : Type ℓ} (port_write : P → Bytes → P × ℕ × Option Failure) where
  -- The loop of writeChunk, with fuel for its calls of Write; `none` means that it ran out.
  unfoldable pub chunk_loop : ℕ → P → Bytes → ℕ → Option (Sent P)
  chunk_loop zero p chunk written = none
  chunk_loop (suc fuel) p chunk written =
      let (next, accepted, failure) = port_write p (drop written chunk) in
      let rest = chunk_loop fuel next chunk (written + accepted) in
      if ltb written (length chunk)
      then elim failure [
        | some f ↦
            some (record { port = next; written = written + accepted; fault = some (port_fault f) })
        | none ↦
            if accepted == 0
            then some (record { port = next; written = written; fault = some no_bytes_fault })
            else rest
      ]
      else some (record { port = p; written = written; fault = none })

  -- writeChunk. Each call of Write but the last takes a byte at least.
  unfoldable pub write_chunk : P → Bool → Bytes → Option (Sent P)
  unfolding chunk_loop
  write_chunk p closed chunk =
      if closed
      then some (record { port = p; written = 0; fault = some closed_fault })
      else chunk_loop (length chunk + 1) p chunk 0

  -- The loop of `write`, with fuel for its chunks. The chunk that starts at a byte meets the entry
  -- of `moments` there.
  unfoldable pub shared_loop : ℕ → ℕ → P → Bytes → ℕ → (ℕ → Moment) → Option (Written P)
  shared_loop zero chunk_bytes p bytes written moments = none
  shared_loop (suc fuel) chunk_bytes p bytes written moments =
      if ltb written (length bytes)
      then if (moments written).ended
        then some (record { port = p; written = written; fault = some ended_fault; progress = [] })
        else elim (write_chunk p (moments written).closed (take chunk_bytes (drop written bytes))) [
          | none ↦ none
          | some sent ↦
              after_chunk written sent
                (shared_loop fuel chunk_bytes sent.port bytes (written + sent.written) moments)
        ]
      else some (record { port = p; written = written; fault = none; progress = [] })

  -- sharedPort.write.
  unfoldable pub shared_write : ℕ → P → Bytes → (ℕ → Moment) → Option (Written P)
  unfolding shared_loop
  shared_write chunk_bytes p bytes moments =
      shared_loop (length bytes + 1) chunk_bytes p bytes 0 moments

abbrev no_bytes_text : Bytes
no_bytes_text = codes "the port accepted no bytes"

-- The *PortError that Device.Write wraps an error in.
abbrev wrapped : Bytes → Failure → WriteError
wrapped path f = port_error_of (classify f) (codes "write " ++ path ++ codes ": " ++ f.text)

-- Device.Write's error: ErrNotOpen, the context's error, and everything else with its class. An
-- error that a chunk met comes as it is when the context has ended by then.
unfoldable pub write_error : Bytes → Bool → Fault → WriteError
unfolding classify
write_error path ended closed_fault = not_open
write_error path ended ended_fault = context_ended
write_error path ended no_bytes_fault =
    if ended
    then other_error no_bytes_text
    else wrapped path (record { errno = none; code = none; text = no_bytes_text })
write_error path ended (port_fault f) = if ended then other_error f.text else wrapped path f

-- Device.Write: through the port in session, if there is one.
unfoldable pub device_write {ℓ} :
    {P : Type ℓ}
    → (P → Bytes → P × ℕ × Option Failure)
    → ℕ
    → Bytes
    → Option P
    → Bytes
    → (ℕ → Moment)
    → Bool
    → Option (ℕ × Option WriteError)
unfolding shared_write write_error
device_write port_write chunk_bytes path none bytes moments ended = some (0, some not_open)
device_write port_write chunk_bytes path (some p) bytes moments ended =
    elim (shared_write port_write chunk_bytes p bytes moments) [
      | none ↦ none
      | some w ↦ some (
        w.written,
        elim w.fault [ none ↦ none | some fault ↦ some (write_error path ended fault) ],
      )
    ]
