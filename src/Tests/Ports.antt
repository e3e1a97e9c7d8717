-- ===== src/Tests/Ports.antt =====
-- internal/device/serial and internal/backoff: a port that takes two bytes in a call.
use device_serial_scanner.Common.{
  ℤ, pos, negsuc, ◌+◌, ◌-◌, ◌^◌, double, int64, ℕ, zero, suc, ◌≡◌, ◌≤◌, refl, true, false, Option,
  none, some, List, [], ◌∷◌, ◌++◌, ap, ◌∙◌, Bytes, codes, length, take, min, All, arith,
}
use device_serial_scanner.Serial.Classify.{Failure, eio}
use device_serial_scanner.Serial.Port.{Written, Moment, shared_write, write_chunk}
use device_serial_scanner.Serial.Port.Chunk.{IsPort}
use device_serial_scanner.Serial.Port.Delivery.{Climbs, shared_write-Climbs}
use device_serial_scanner.Serial.Session.{Options, Turn, bytes_in, read_failed, session}
use device_serial_scanner.Serial.Session.Trace.{IsSentFrame, session-IsSentFrame}
use device_serial_scanner.Core.Pipeline.Tally.{report_all}
use device_serial_scanner.Core.Pipeline.Presence.{Knows, session-Knows}
use device_serial_scanner.Serial.Classify.{classify}
use device_serial_scanner.Framer.{new_framer, append}
use device_serial_scanner.Framer.Index.{index}
use device_serial_scanner.Backoff.{Policy, reopen_waits, wait_for, double_up}
use device_serial_scanner.Backoff.Doubling.{doublings, reopen_waits-doublings}
use device_serial_scanner.Tests.Txs.{line}

abbrev two_at_once : Bytes → Bytes → Bytes × ℕ × Option Failure
two_at_once on_line bytes = (on_line ++ take 2 bytes, min 2 (length bytes), none)

take-min : (n : ℕ) (xs : Bytes) → take n xs ≡ take (min n (length xs)) xs
take-min zero xs = let e : 0 ≡ min 0 (length xs) = omega arith in ap (λ n. take n xs) e
take-min (suc n) [] = let e : 0 ≡ min (suc n) 0 = omega arith in ap (λ n. take {A = ℕ} n []) e
take-min (suc n) (x ∷ xs) =
    let e : suc (min n (length xs)) ≡ min (suc n) (suc (length xs)) = omega arith in
    ap (◌∷◌ x) (take-min n xs) ∙ ap (λ n. take n (x ∷ xs)) e

two_at_once-IsPort : IsPort two_at_once (λ on_line. on_line)
two_at_once-IsPort = record {
  takes = λ p bytes. omega arith;
  puts = λ p bytes. ap (◌++◌ p) (take-min 2 bytes);
}

abbrev quiet : ℕ → Moment
quiet n = record { ended = false; closed = false }

shared_write-Climbs_example :
    (w : Written Bytes) × (shared_write two_at_once 3 [] (codes "abcdefgh") quiet ≡ some w)
    × (w.written ≤ 8)
    × (w.fault ≡ none → w.written ≡ 8)
    × (w.port ≡ take w.written (codes "abcdefgh"))
    × Climbs 0 w.progress w.written
shared_write-Climbs_example =
    shared_write-Climbs two_at_once (λ on_line. on_line) two_at_once-IsPort 3 [] (codes "abcdefgh")
      quiet (omega arith)

-- It comes in three chunks of two calls at most, and all of it is written.
all_written :
    shared_write two_at_once 3 [] (codes "abcdefgh") quiet
    ≡ some
        (record { port = codes "abcdefgh"; written = 8; fault = none; progress = 3 ∷ 6 ∷ 8 ∷ [] })
unfolding shared_write write_chunk
all_written = refl

abbrev desk : Options
desk = record { id = codes "desk"; path = codes "/dev/x"; separator = 13 ∷ []; max_frame_bytes = 4 }

abbrev unplugged : Failure
unplugged = record { errno = some eio; code = none; text = codes "input/output error" }

abbrev short_day : List Turn
short_day =
    record {
      ended = false;
      answer = bytes_in (codes "12\r3");
      ended_after = false;
      taken = none;
      at = 1;
    }
    ∷ record {
      ended = false;
      answer = read_failed unplugged;
      ended_after = false;
      taken = none;
      at = 2;
    }
    ∷ []

session-IsSentFrame_example :
    All (IsSentFrame desk) (session desk none 0 none short_day false 3).frames
session-IsSentFrame_example = session-IsSentFrame desk none 0 none short_day false 3

one_frame :
    (session desk none 0 none short_day false 3).frames
    ≡ record { device_id = codes "desk"; raw = codes "12"; at = 1 } ∷ []
unfolding session new_framer append index
one_frame = refl

abbrev no_failure : Option Failure
no_failure = none

session-Knows_example :
    (let s = session desk none 0 none short_day false 3 in
      let after = report_all s.events line in
      ((f : Failure)
        → no_failure ≡ some f
        → (after.is_open ≡ false) × (after.failure_class ≡ classify f) × (after.failure ≡ f.text))
      × (no_failure ≡ none → Knows s.ending false after))
session-Knows_example = session-Knows desk none 0 none short_day false 3 line

abbrev patient : Policy
patient = record { interval = 1; grow = true; longest = 5; jitter = true }

-- A wait that is spread by so much.
abbrev spread_by : ℕ → ℤ → ℤ
spread_by n (pos wait) = pos (wait + n)
spread_by n (negsuc wait) = negsuc wait

abbrev failures : List (ℕ × (ℤ → ℤ))
failures = (0, spread_by 0) ∷ (1, spread_by 1) ∷ (0, spread_by 0) ∷ []

reopen_waits-doublings_example :
    reopen_waits patient 7 ((9, spread_by 1) ∷ failures)
    ≡ doublings patient 0 (spread_by 1 ∷ spread_by 0 ∷ spread_by 1 ∷ spread_by 0 ∷ [])
reopen_waits-doublings_example =
    reopen_waits-doublings patient 7 9 (spread_by 1) failures (λ g. omega arith)
      (omega arith, (omega arith, (omega arith, tt)))

waits_grow :
    doublings patient 0 (spread_by 1 ∷ spread_by 0 ∷ spread_by 1 ∷ spread_by 0 ∷ [])
    ≡ pos 2 ∷ pos 2 ∷ pos 5 ∷ pos 5 ∷ []
waits_grow = refl

-- A longest wait above 2 ^ 62 lets the doubling wrap to a wait that is negative.
wait_wraps :
    wait_for
      (record { interval = 2 ^ 62; grow = true; longest = 2 ^ 62 + 1; jitter = false })
      (spread_by 0)
      2
    ≡ negsuc (2 ^ 63 - 1)
unfolding wait_for double_up double int64
wait_wraps = refl
