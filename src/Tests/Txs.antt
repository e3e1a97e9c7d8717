-- ===== src/Tests/Txs.antt =====
-- internal/core: written ids, counters, the writer's loop and admission, on one device.
use device_serial_scanner.Common.{
  ℕ, zero, suc, ◌≡◌, refl, Bool, if◌then◌else◌, true, false, none, some, [], ◌∷◌, codes, lookup,
  text_eq, arith,
}
use device_serial_scanner.Device.{Event, port_open_failed, not_open}
use device_serial_scanner.Queue.{new_waiting_queue}
use device_serial_scanner.Wire.Counters.{no_counts, ErrorClass, busy, unlisted, unlisted_reason}
use device_serial_scanner.Wire.Tx.{tx_written}
use device_serial_scanner.Wire.ReadTx.{read_tx}
use device_serial_scanner.Core.WrittenIds.{WrittenIds, remember}
use device_serial_scanner.Core.WrittenIds.Memory.{
  IsConsistent, Remembers, remember-Remembers, contains, is_some,
}
use device_serial_scanner.Core.Pipeline.{Pipeline, DeviceSettings, TxJob}
use device_serial_scanner.Core.Pipeline.Tally.{report_all, Counted, report_all-Counted}
use device_serial_scanner.Core.Tx.{
  TxMessage, Round, Outcome, finish_tx, write_tx, write_loop, write_round, admit_tx_to,
}
use device_serial_scanner.Core.Tx.Writing.{Ends, write_tx-Ends}
use device_serial_scanner.Core.Tx.Written.{IsReported, write_tx-written}
use device_serial_scanner.Core.Tx.Admission.{Admitted, admit_tx_to-Admitted}
use device_serial_scanner.Tests.Wires.{sample_codec, sample_ref}

abbrev two_ids : WrittenIds
two_ids = record {
  limit = 2;
  at = (codes "b", 20) ∷ (codes "a", 10) ∷ [];
  order = codes "a" ∷ codes "b" ∷ [];
}

either :
    (x y : Bool)
    → is_some {A = ℕ} (if x then some 20 else if y then some 10 else none)
      ≡ (if y then true else if x then true else false)
either true true = refl
either true false = refl
either false true = refl
either false false = refl

two_ids-IsConsistent : IsConsistent two_ids
unfolding contains lookup text_eq
two_ids-IsConsistent = record {
  bounded = omega arith;
  distinct = (refl, (refl, tt));
  agrees = λ id. either (text_eq (codes "b") id) (text_eq (codes "a") id);
}

remember-Remembers_example :
    (kept : WrittenIds) × (remember (codes "c") 30 two_ids ≡ some kept)
    × Remembers (codes "c") 30 two_ids kept
remember-Remembers_example =
    remember-Remembers (codes "c") 30 two_ids two_ids-IsConsistent (omega arith)

abbrev pub printer : DeviceSettings
printer = record {
  id = codes "printer";
  expiry = 60;
  tx_open_attempts = 3;
  tx_open_interval = 1;
  writable = true;
}

abbrev pub line : Pipeline
line = record {
  device = printer;
  event_limit = 2;
  frames = [];
  status = new_waiting_queue;
  tx = new_waiting_queue;
  seq = 0;
  opened = false;
  tx_active = [];
  written = two_ids;
  is_open = false;
  failure_class = busy;
  failure = codes "port busy";
  counters = no_counts;
}

abbrev failed_with : ErrorClass → Event
failed_with class = record {
  device_id = codes "printer";
  kind = port_open_failed;
  at = 5;
  error_class = class;
  err = some (codes "refused");
  reason = unlisted_reason [];
  bytes = 0;
}

report_all-Counted_example :
    Counted
      (failed_with busy ∷ failed_with (unlisted (codes "odd")) ∷ [])
      no_counts
      (report_all (failed_with busy ∷ failed_with (unlisted (codes "odd")) ∷ []) line).counters
report_all-Counted_example =
    report_all-Counted (failed_with busy ∷ failed_with (unlisted (codes "odd")) ∷ []) line

abbrev pub job : TxJob
job = record { ref = sample_ref; payload = codes "abc"; received = 0; deadline = some 100 }

-- The port is closed at first, and takes the three bytes on the second round.
abbrev pub rounds : ℕ → Round
rounds zero = record {
  now = 1;
  stopping = false;
  is_open = false;
  wrote = 0;
  error = some not_open;
  now_after = 2;
  cut = false;
  failure = (busy, codes "port busy");
}
rounds (suc n) = record {
  now = 3;
  stopping = false;
  is_open = true;
  wrote = 3;
  error = none;
  now_after = 4;
  cut = false;
  failure = (busy, codes "port busy");
}

write_tx-Ends_example :
    (out : Outcome) × (write_tx printer job rounds ≡ some out) × Ends printer job 0 rounds out
write_tx-Ends_example = write_tx-Ends printer job rounds

abbrev pub second_round : Outcome
second_round = record {
  result = tx_written true sample_ref 3 1;
  at = 4;
  written_at = some 4;
  attempts = 1;
}

second_round_runs : write_tx printer job rounds ≡ some second_round
unfolding write_tx write_loop write_round
second_round_runs = refl

write_tx-written_example :
    (out : Outcome) × (after : Pipeline) × (write_tx printer job rounds ≡ some out)
    × (finish_tx job out line ≡ some after)
    × IsReported printer job (rounds out.attempts) out line after
write_tx-written_example =
    write_tx-written printer job rounds line two_ids-IsConsistent (omega arith)

abbrev pub message : TxMessage
message = record {
  topic = codes "skuhus/acme/vasby/pack-03/printer/tx";
  payload = codes "{";
  expiry = some 100;
  received = 0;
}

admit_tx_to-Admitted_example :
    Admitted 1 false message
      (read_tx sample_codec (codes "{")).0
      (read_tx sample_codec (codes "{")).1
      line
      (admit_tx_to sample_codec 1 false message line)
admit_tx_to-Admitted_example = admit_tx_to-Admitted sample_codec 1 false message line
