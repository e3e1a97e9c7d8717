-- ===== src/Core/Pipeline/Tally.antt =====
-- The counters of a keepalive against the events that were reported.
use device_serial_scanner.Common.{ℕ, ◌+◌, ◌≡◌, refl, List, [], ◌∷◌, u64, arith}
use device_serial_scanner.Device.{
  Event, EventKind, port_opened, port_closed, port_lost, port_open_failed, bytes_discarded,
  bytes_read,
}
use device_serial_scanner.Wire.Counters.{
  ErrorClass, absent, busy, permission_denied, read_only, disconnected, port_error, unknown,
  unlisted, DiscardReason, oversize, inter_char_timeout, resync, empty_frame, DeviceCounters,
}
use device_serial_scanner.Core.Pipeline.{Pipeline, count_kind, known_class, report}

-- The reader's calls of report, in order.
unfoldable pub report_all : List Event → Pipeline → Pipeline
report_all [] line = line
report_all (e ∷ es) line = report_all es (report e line).0

-- How many events pass a test.
abbrev pub tally : (Event → ℕ) → List Event → ℕ
tally p [] = 0
tally p (e ∷ es) = p e + tally p es

-- One for the events that fall under a counter.
abbrev pub failed_open : (ErrorClass → ℕ) → Event → ℕ
failed_open p e = elim e.kind [ port_open_failed ↦ p e.error_class | _ ↦ 0 ]

abbrev pub discarded : (DiscardReason → ℕ) → Event → ℕ
discarded p e = elim e.kind [ bytes_discarded ↦ p e.reason | _ ↦ 0 ]

abbrev pub read_bytes : Event → ℕ
read_bytes e = elim e.kind [ bytes_read ↦ e.bytes | _ ↦ 0 ]

abbrev pub is_absent : ErrorClass → ℕ
is_absent absent = 1
is_absent _ = 0

abbrev pub is_busy : ErrorClass → ℕ
is_busy busy = 1
is_busy _ = 0

abbrev pub is_permission_denied : ErrorClass → ℕ
is_permission_denied permission_denied = 1
is_permission_denied _ = 0

abbrev pub is_read_only : ErrorClass → ℕ
is_read_only read_only = 1
is_read_only _ = 0

abbrev pub is_disconnected : ErrorClass → ℕ
is_disconnected disconnected = 1
is_disconnected _ = 0

abbrev pub is_port_error : ErrorClass → ℕ
is_port_error port_error = 1
is_port_error _ = 0

-- The class unknown, and every class that the wire does not define.
abbrev pub is_unknown : ErrorClass → ℕ
is_unknown unknown = 1
is_unknown (unlisted name) = 1
is_unknown _ = 0

abbrev pub is_oversize : DiscardReason → ℕ
is_oversize oversize = 1
is_oversize _ = 0

abbrev pub is_timeout : DiscardReason → ℕ
is_timeout inter_char_timeout = 1
is_timeout _ = 0

abbrev pub is_resync : DiscardReason → ℕ
is_resync resync = 1
is_resync _ = 0

abbrev pub is_empty_frame : DiscardReason → ℕ
is_empty_frame empty_frame = 1
is_empty_frame _ = 0

-- Each counter that events move has moved by the number of its events, as a uint64 counts, and
-- the counters of frames and of tx have not moved.
pub record Counted (es : List Event) (a b : DeviceCounters) : Type 0 where
  pub absent :
      u64 b.failed_opens.absent_count
      ≡ u64 (a.failed_opens.absent_count + tally (failed_open is_absent) es)
  pub busy :
      u64 b.failed_opens.busy_count
      ≡ u64 (a.failed_opens.busy_count + tally (failed_open is_busy) es)
  pub permission_denied :
      u64 b.failed_opens.permission_denied_count
      ≡ u64 (a.failed_opens.permission_denied_count + tally (failed_open is_permission_denied) es)
  pub read_only :
      u64 b.failed_opens.read_only_count
      ≡ u64 (a.failed_opens.read_only_count + tally (failed_open is_read_only) es)
  pub disconnected :
      u64 b.failed_opens.disconnected_count
      ≡ u64 (a.failed_opens.disconnected_count + tally (failed_open is_disconnected) es)
  pub port_error :
      u64 b.failed_opens.port_error_count
      ≡ u64 (a.failed_opens.port_error_count + tally (failed_open is_port_error) es)
  pub unknown :
      u64 b.failed_opens.unknown_count
      ≡ u64 (a.failed_opens.unknown_count + tally (failed_open is_unknown) es)
  pub oversize :
      u64 b.discards.oversize_count
      ≡ u64 (a.discards.oversize_count + tally (discarded is_oversize) es)
  pub inter_char_timeout :
      u64 b.discards.inter_char_timeout_count
      ≡ u64 (a.discards.inter_char_timeout_count + tally (discarded is_timeout) es)
  pub resync :
      u64 b.discards.resync_count ≡ u64 (a.discards.resync_count + tally (discarded is_resync) es)
  pub empty_frame :
      u64 b.discards.empty_frame_count
      ≡ u64 (a.discards.empty_frame_count + tally (discarded is_empty_frame) es)
  pub bytes : u64 b.rx_bytes ≡ u64 (a.rx_bytes + tally read_bytes es)
  pub frames_still : b.rx_frames ≡ a.rx_frames
  pub failures_still : b.publish_failures ≡ a.publish_failures
  pub written_still : b.tx_written ≡ a.tx_written
  pub failed_still : b.tx_failed ≡ a.tx_failed

report-counters :
    (e : Event) (line : Pipeline)
    → (report e line).0.counters
      ≡ (count_kind e.kind (record e { error_class = known_class e.error_class }) line).counters
unfolding report
report-counters e line = ground arith

count_kind-Counted :
    (k : EventKind) (e : Event) (line : Pipeline)
    → e.kind ≡ k
    → Counted
        (e ∷ [])
        line.counters
        (count_kind k (record e { error_class = known_class e.error_class }) line).counters
unfolding count_kind known_class
count_kind-Counted port_opened e line q = ground arith
count_kind-Counted port_closed e line q = ground arith
count_kind-Counted port_lost e line q = ground arith
count_kind-Counted port_open_failed e line q = ground arith
count_kind-Counted bytes_discarded e line q = ground arith
count_kind-Counted bytes_read e line q = ground arith

Counted-cons :
    (e : Event) (es : List Event) {a b c : DeviceCounters}
    → Counted (e ∷ []) a b
    → Counted es b c
    → Counted (e ∷ es) a c
Counted-cons e es h k = ground arith

Counted-nil : (a : DeviceCounters) → Counted [] a a
Counted-nil a = ground arith

-- Whatever events a reader reports, each counter of the keepalive has moved by the number of events
-- that fall under it, as a uint64 counts: a failed open under its class, with every class that the
-- wire does not define under unknown; a discard under its reason; and the bytes read by their sum.
-- No other counter moves.
pub report_all-Counted :
    (es : List Event) (line : Pipeline) → Counted es line.counters (report_all es line).counters
unfolding report_all
report_all-Counted [] line = Counted-nil line.counters
report_all-Counted (e ∷ es) line =
    Counted-cons e es (rw report-counters (count_kind-Counted e.kind e line refl))
      (report_all-Counted es (report e line).0)
