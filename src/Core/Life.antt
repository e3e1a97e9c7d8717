-- ===== src/Core/Life.antt =====
-- The tx of one device over the life of the agent, internal/core/tx.go: what arrives is admitted,
-- the writer takes one job after another, writes it and remembers its id. Admission, the writer
-- and everything else in the agent interleave; each step is what runs under the pipeline's locks.
pub mod Tracked
pub mod Once
use device_serial_scanner.Common.{
  ℕ, ◌≡◌, ◌≢◌, Bool, true, false, Option, none, some, List, [], ◌∷◌, ◌++◌, Bytes, length, drop,
  lookup, put, if◌then◌else◌,
}
use device_serial_scanner.Queue.{pop, close, WaitingQueue, new_waiting_queue}
use device_serial_scanner.Wire.Tx.{TxStage, queued, writing}
use device_serial_scanner.Wire.ReadTx.{Codec}
use device_serial_scanner.Core.WrittenIds.{new_written_ids}
use device_serial_scanner.Core.Pipeline.{Pipeline, TxJob, Standing}
use device_serial_scanner.Core.Tx.{TxMessage, Round, Outcome, admit_tx_to, write_tx, finish_tx}

unfoldable pub same_stage : TxStage → TxStage → Bool
same_stage queued queued = true
same_stage writing writing = true
same_stage _ _ = false

-- setStage: the time is kept while the stage stays.
unfoldable pub set_stage : TxStage → ℕ → Standing → Standing
unfolding same_stage
set_stage stage at st =
    if same_stage st.stage stage then st else record st { stage = stage; since = at }

-- progress.
abbrev pub progress : ℕ → Standing → Standing
progress written st = record st { written = written }

-- The pipeline, the job that the writer has taken from the queue, and whether the agent is
-- stopping. The lists record what happened: the jobs that were accepted and that came to an end, and
-- the ids that were written, in order.
pub record Life : Type 0 where
  pub line : Pipeline
  pub taken : Option TxJob
  pub stopping : Bool
  pub accepted : List TxJob
  pub ended : List TxJob
  pub written_log : List Bytes

-- admitTxTo at the time `now`. A job that it accepts stands at the end of the queue.
unfoldable pub admit : Codec → ℕ → TxMessage → Life → Life
unfolding admit_tx_to
admit codec now message s =
    let line = admit_tx_to codec now s.stopping message s.line in
    record s { line = line; accepted = s.accepted ++ drop (length s.line.tx.items) line.tx.items }

abbrev pub logged : Bytes → Option ℕ → List Bytes
logged id none = []
logged id (some at) = id ∷ []

-- Everything that the pipeline does beside: its port, its frames and its status messages.
pub record SameTxState (line line' : Pipeline) : Type 0 where
  pub same_queue : line'.tx.items ≡ line.tx.items
  pub same_active : line'.tx_active ≡ line.tx_active
  pub same_written : line'.written ≡ line.written

pub data Step : Life → Life → Type 0 where
  admits :
      (s : Life) (codec : Codec) (now : ℕ) (message : TxMessage)
      → Step s (admit codec now message s)
  -- `next`: the writer takes the oldest job.
  takes :
      (s : Life) (job : TxJob) (q : WaitingQueue TxJob)
      → s.taken ≡ none
      → pop s.line.tx ≡ (some job, q)
      → Step s (record s { line = record (s.line) { tx = q }; taken = some job })
  -- The writer tells where the job in its hand stands.
  sets_stage :
      (s : Life) (job : TxJob) (st : Standing) (stage : TxStage) (at : ℕ)
      → s.taken ≡ some job
      → lookup job.ref.id s.line.tx_active ≡ some st
      → Step s (record s {
        line = record (s.line) {
          tx_active = put job.ref.id (set_stage stage at st) s.line.tx_active;
        };
      })
  progresses :
      (s : Life) (job : TxJob) (st : Standing) (written : ℕ)
      → s.taken ≡ some job
      → lookup job.ref.id s.line.tx_active ≡ some st
      → Step s (record s {
        line = record (s.line) {
          tx_active = put job.ref.id (progress written st) s.line.tx_active;
        };
      })
  -- writeTx has come to its outcome, and writeTxs gives the job back.
  ends :
      (s : Life) (job : TxJob) (rounds : ℕ → Round) (out : Outcome) (line : Pipeline)
      → s.taken ≡ some job
      → write_tx s.line.device job rounds ≡ some out
      → finish_tx job out s.line ≡ some line
      → Step s (record s {
        line = line;
        taken = none;
        ended = s.ended ++ job ∷ [];
        written_log = s.written_log ++ logged job.ref.id out.written_at;
      })
  -- Run begins the shutdown: the intake refuses, and the queue is closed.
  stops :
      (s : Life)
      → Step s (record s { stopping = true; line = record (s.line) { tx = close s.line.tx } })
  elsewhere :
      (s : Life) (line : Pipeline) → SameTxState s.line line → Step s (record s { line = line })

-- Run builds the pipeline with nothing in it.
pub record IsNew (s : Life) : Type 0 where
  pub tx_empty : s.line.tx.items ≡ []
  pub none_active : s.line.tx_active ≡ []
  pub none_written : (limit : ℕ) × (s.line.written ≡ new_written_ids limit) × (limit ≢ 0)
  pub none_taken : s.taken ≡ none
  pub none_accepted : s.accepted ≡ []
  pub none_ended : s.ended ≡ []
  pub none_logged : s.written_log ≡ []

pub data Reach (s : Life) : Life → Type 0 where
  here : Reach s s
  then_step : {t u : Life} → Reach s t → Step t u → Reach s u
