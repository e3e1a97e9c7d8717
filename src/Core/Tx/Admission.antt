-- ===== src/Core/Tx/Admission.antt =====
-- What admission does with a tx: one answer at once, and a place in the queue if it is taken.
use device_serial_scanner.Common.{
  ℕ, ◌≡◌, ◌≢◌, ◌↔◌, refl, inl, inr, Bool, true, false, none, [], ◌∷◌, ◌++◌, Bytes, lookup, put,
  arith, Option-cases, Bool-cases,
}
use device_serial_scanner.Queue.{tx, push}
use device_serial_scanner.Wire.Tx.{
  TxRef, code_accepted, TxResult, tx_result, tx_accepted, tx_in_progress, tx_already_written,
  tx_agent_stopping, TxProblem, queued,
}
use device_serial_scanner.Wire.ReadTx.{Codec, ReadResult, readable, unreadable, read_tx}
use device_serial_scanner.Core.Pipeline.{Pipeline}
use device_serial_scanner.Core.Tx.{
  TxMessage, record_tx_result, problem_result, admit_as, new_job, take_on, admit_read, admit_tx_to,
}

-- What recording a result leaves alone.
pub record SameTx (line line' : Pipeline) : Type 0 where
  pub same_queue : line'.tx ≡ line.tx
  pub same_active : line'.tx_active ≡ line.tx_active
  pub same_written : line'.written ≡ line.written

record_tx_result-SameTx :
    (result : TxResult) (now : ℕ) (line : Pipeline) → SameTx line (record_tx_result result now line)
unfolding record_tx_result
record_tx_result-SameTx result now line = ground arith

pub record_tx_result-told :
    (result : TxResult) (now : ℕ) (line : Pipeline)
    → (record_tx_result result now line).status.items
      ≡ line.status.items ++ tx (record { result = result; at = now }) ∷ []
unfolding record_tx_result
record_tx_result-told result now line = ground arith

-- A tx is free to be taken: its id is neither in hand nor among those remembered as written, and
-- the agent is not stopping.
pub record IsFree (id : Bytes) (stopping : Bool) (line : Pipeline) : Type 0 where
  pub not_in_hand : lookup id line.tx_active ≡ none
  pub not_written : lookup id line.written.at ≡ none
  pub running : stopping ≡ false

-- What admission did: the one message that the status queue got, and, if it says accepted and only
-- then, the job at the end of the writer's queue and in hand.
pub record Admitted (now : ℕ) (stopping : Bool) (message : TxMessage) (ref : TxRef)
    (read : ReadResult) (line line' : Pipeline) : Type 0 where
  pub result : TxResult
  pub told :
      line'.status.items ≡ line.status.items ++ tx (record { result = result; at = now }) ∷ []
  pub accepted_iff :
      (result.code ≡ code_accepted)
      ↔ (((raw : Bytes) × (read ≡ readable raw)) × IsFree ref.id stopping line)
  pub taken :
      (raw : Bytes)
      → read ≡ readable raw
      → result.code ≡ code_accepted
      → (line'.tx ≡ push (new_job ref raw message) line.tx)
        × (line'.tx_active
            ≡ put ref.id (record { stage = queued; since = now; written = 0 }) line.tx_active)
        × (line'.written ≡ line.written)
  pub not_taken : result.code ≢ code_accepted → SameTx line line'

module _ (now : ℕ) (stopping : Bool) (message : TxMessage) (ref : TxRef) (line : Pipeline) where
  -- A result other than accepted, where the tx cannot be taken.
  refused :
      (result : TxResult) (read : ReadResult)
      → result.code ≢ code_accepted
      → ¬ (((raw : Bytes) × (read ≡ readable raw)) × IsFree ref.id stopping line)
      → Admitted now stopping message ref read line (record_tx_result result now line)
  refused result read n f = record {
    result = result;
    told = record_tx_result-told result now line;
    accepted_iff = (λ a. absurd (n a), λ a. absurd (f a));
    taken = λ raw q a. absurd (n a);
    not_taken = λ _. record_tx_result-SameTx result now line;
  }

  accepted_here :
      (raw : Bytes)
      → IsFree ref.id stopping line
      → Admitted now stopping message ref (readable raw) line (take_on ref raw now message line)
  unfolding take_on tx_result
  accepted_here raw f = record {
    result = tx_accepted line.is_open ref;
    told = record_tx_result-told (tx_accepted line.is_open ref) now (record line {
      tx_active = put ref.id (record { stage = queued; since = now; written = 0 }) line.tx_active;
    });
    accepted_iff = (λ a. ((raw, refl), f), λ a. refl);
    taken = λ other q a. ground arith;
    not_taken = λ n. absurd (n refl);
  }

  admit_read_stopping :
      (raw : Bytes)
      → lookup ref.id line.tx_active ≡ none
      → lookup ref.id line.written.at ≡ none
      → stopping ≡ true
      → admit_read now stopping message ref raw line
        ≡ record_tx_result (tx_agent_stopping line.is_open ref 0) now line
  unfolding admit_read
  admit_read_stopping raw e w b = ground arith

  admit_read_free :
      (raw : Bytes)
      → lookup ref.id line.tx_active ≡ none
      → lookup ref.id line.written.at ≡ none
      → stopping ≡ false
      → admit_read now stopping message ref raw line ≡ take_on ref raw now message line
  unfolding admit_read
  admit_read_free raw e w b = ground arith

  admit_read-Admitted :
      (raw : Bytes)
      → Admitted now stopping message ref
          (readable raw)
          line
          (admit_read now stopping message ref raw line)
  unfolding tx_result admit_read
  admit_read-Admitted raw = elim (Option-cases (lookup ref.id line.tx_active)) [
    | inr (st, e) ↦
        rw (e, admit_read)
          (refused (tx_in_progress line.is_open ref st.stage st.since st.written) (readable raw)
            (λ q. cc) (λ a. cc a.1.not_in_hand))
    | inl e ↦ elim (Option-cases (lookup ref.id line.written.at)) [
      | inr (t, w) ↦
          rw (e, admit_read)
            (rw w (
              refused (tx_already_written line.is_open ref t) (readable raw) (λ q. cc)
                (λ a. cc a.1.not_written)))
      | inl w ↦ elim (Bool-cases stopping) [
        | inl b ↦ rw (admit_read_stopping raw e w b) (
            refused (tx_agent_stopping line.is_open ref 0) (readable raw) (λ q. cc)
              (λ a. cc a.1.running))
        | inr b ↦
            rw (admit_read_free raw e w b)
              (accepted_here raw (record { not_in_hand = e; not_written = w; running = b }))
      ]
    ]
  ]

problem_result-code :
    (is_open : Bool) (ref : TxRef) (problem : TxProblem)
    → (problem_result is_open ref problem).code ≢ code_accepted
unfolding problem_result tx_result
problem_result-code is_open ref problem h = ground arith

admit_as-Admitted :
    (now : ℕ) (stopping : Bool) (message : TxMessage) (line : Pipeline) (ref : TxRef)
    (read : ReadResult)
    → Admitted now stopping message ref read line (admit_as now stopping message line ref read)
unfolding admit_as
admit_as-Admitted now stopping message line ref (readable raw) =
    admit_read-Admitted now stopping message ref line raw
admit_as-Admitted now stopping message line ref (unreadable problem) =
    refused now stopping message ref line (problem_result line.is_open ref problem)
      (unreadable problem) (problem_result-code line.is_open ref problem) (λ a. cc a.0.1)

-- Every tx that arrives for a device gets exactly one answer at once, at the end of the status
-- queue. It is accepted exactly when it can be read, its id is neither in hand nor remembered as
-- written, and the agent is not stopping; then, and only then, its job goes to the end of the
-- writer's queue, with its deadline, and its id is in hand as queued from now. In every other case
-- the writer's queue, the tx in hand and the remembered ids stay as they were.
pub admit_tx_to-Admitted :
    (codec : Codec) (now : ℕ) (stopping : Bool) (message : TxMessage) (line : Pipeline)
    → Admitted now stopping message
        (read_tx codec message.payload).0
        (read_tx codec message.payload).1
        line
        (admit_tx_to codec now stopping message line)
unfolding admit_tx_to
admit_tx_to-Admitted codec now stopping message line =
    admit_as-Admitted now stopping message line (read_tx codec message.payload).0
      (read_tx codec message.payload).1
