-- ===== src/Tests/Lives.antt =====
-- internal/core/tx.go: a tx of one device from its arrival to its end.
use device_serial_scanner.Common.{
  ℕ, remove, ◌≡◌, refl, false, none, some, [], ◌∷◌, ◌++◌, lookup, put, text_eq, arith,
}
use device_serial_scanner.Queue.{tx, pop}
use device_serial_scanner.Wire.Tx.{tx_result}
use device_serial_scanner.Wire.ReadTx.{
  read_tx, tx_ref_of, has_unknown, scan_fields, read_values, read_raw, has_line_break,
}
use device_serial_scanner.Core.WrittenIds.{new_written_ids, remember}
use device_serial_scanner.Core.Pipeline.{Pipeline, TxJob}
use device_serial_scanner.Core.Tx.{
  admit_tx_to, admit_as, admit_read, take_on, record_tx_result, finish_tx, write_tx, write_loop,
  write_round,
}
use device_serial_scanner.Core.Life.{
  Life, admit, admits, takes, ends, Reach, here, then_step, IsNew,
}
use device_serial_scanner.Core.Life.Tracked.{IsTracked}
use device_serial_scanner.Core.Life.Tracked.Steps.{Reach-IsTracked}
use device_serial_scanner.Core.Life.Once.{IsSpaced, Reach-IsSpaced, Reach-finish_tx}
use device_serial_scanner.Tests.Txs.{line, message, rounds, second_round}
use device_serial_scanner.Tests.Wires.{sample_codec, sample_ref}

abbrev new_life : Life
new_life = record {
  line = record line { written = new_written_ids 2 };
  taken = none;
  stopping = false;
  accepted = [];
  ended = [];
  written_log = [];
}

new_life-IsNew : IsNew new_life
new_life-IsNew = record {
  tx_empty = refl;
  none_active = refl;
  none_written = (2, refl, λ h. omega (arith, h));
  none_taken = refl;
  none_accepted = refl;
  none_ended = refl;
  none_logged = refl;
}

abbrev arrived : Life
unfolding admit admit_tx_to
arrived = admit sample_codec 1 message new_life

abbrev waiting : TxJob
waiting = record { ref = sample_ref; payload = 65 ∷ []; received = 0; deadline = some 100 }

in_queue : pop arrived.line.tx ≡ (some waiting, record (arrived.line.tx) { items = [] })
unfolding arrived pop admit admit_tx_to read_tx admit_as admit_read take_on record_tx_result
    tx_ref_of has_unknown scan_fields read_values read_raw has_line_break lookup text_eq tx_result
in_queue = refl

abbrev in_work : Life
unfolding arrived
in_work = record arrived {
  line = record (arrived.line) { tx = record (arrived.line.tx) { items = [] } };
  taken = some waiting;
}

reached : Reach new_life in_work
unfolding arrived
reached =
    then_step (then_step here (admits new_life sample_codec 1 message))
      (takes arrived waiting (record (arrived.line.tx) { items = [] }) refl in_queue)

Reach-IsTracked_example : IsTracked in_work
Reach-IsTracked_example = Reach-IsTracked new_life in_work new_life-IsNew reached

-- The job is written, and its id remembered.
abbrev told : Pipeline
unfolding in_work
told = record_tx_result second_round.result 4 in_work.line

abbrev done_line : Pipeline
done_line = record told {
  tx_active = remove sample_ref.id told.tx_active;
  written = record { limit = 2; at = (sample_ref.id, 4) ∷ []; order = sample_ref.id ∷ [] };
}

round_runs : write_tx in_work.line.device waiting rounds ≡ some second_round
unfolding in_work arrived admit admit_tx_to read_tx admit_as admit_read take_on record_tx_result
    tx_ref_of has_unknown scan_fields read_values read_raw has_line_break lookup text_eq tx_result
    write_tx write_loop write_round
round_runs = refl

finish_runs : finish_tx waiting second_round in_work.line ≡ some done_line
unfolding in_work told arrived admit admit_tx_to read_tx admit_as admit_read take_on
    record_tx_result tx_ref_of has_unknown scan_fields read_values read_raw has_line_break lookup
    text_eq tx_result finish_tx remember put
finish_runs = refl

abbrev finished : Life
unfolding in_work
finished = record in_work {
  line = done_line;
  taken = none;
  ended = waiting ∷ [];
  written_log = sample_ref.id ∷ [];
}

finished_reached : Reach new_life finished
unfolding in_work arrived admit
finished_reached =
    then_step reached
      (ends in_work waiting rounds second_round done_line refl round_runs finish_runs)

Reach-IsSpaced_example : IsSpaced finished.line.written.limit finished.written_log
Reach-IsSpaced_example = Reach-IsSpaced new_life finished new_life-IsNew finished_reached

Reach-finish_tx_example :
    (line : Pipeline) × (finish_tx waiting second_round in_work.line ≡ some line)
    × (line.status.items
        ≡ in_work.line.status.items
          ++ tx (record { result = second_round.result; at = second_round.at }) ∷ [])
    × (lookup waiting.ref.id line.tx_active ≡ none)
    × ((at : ℕ)
        → second_round.written_at ≡ some at
        → lookup waiting.ref.id line.written.at ≡ some at)
unfolding in_work
Reach-finish_tx_example =
    Reach-finish_tx new_life in_work waiting second_round new_life-IsNew reached refl
