-- ===== src/Wire/Counters.antt =====
-- Error classes, discard reasons and the counters of a keepalive, internal/wire/messages.go.
-- Counters are `uint64` and wrap.
use device_serial_scanner.Common.{ℕ, ◌+◌, Bool, true, false, Bytes, u64}

-- A class is a Go string: the seven that the wire defines, and any other.
pub data ErrorClass : Type 0 where
  absent busy permission_denied read_only disconnected port_error unknown : ErrorClass
  unlisted : Bytes → ErrorClass

unfoldable pub class_known : ErrorClass → Bool
class_known (unlisted name) = false
class_known _ = true

pub data DiscardReason : Type 0 where
  oversize inter_char_timeout resync empty_frame : DiscardReason
  unlisted_reason : Bytes → DiscardReason

unfoldable pub reason_known : DiscardReason → Bool
reason_known (unlisted_reason name) = false
reason_known _ = true

-- ++ on a uint64.
abbrev pub increment : ℕ → ℕ
increment n = u64 (n + 1)

pub record DiscardCounts : Type 0 where
  pub oversize_count : ℕ
  pub inter_char_timeout_count : ℕ
  pub resync_count : ℕ
  pub empty_frame_count : ℕ

-- DiscardCounts.Add.
unfoldable pub add_discard_count : DiscardReason → DiscardCounts → DiscardCounts
add_discard_count oversize c = record c { oversize_count = increment c.oversize_count }
add_discard_count inter_char_timeout c = record c {
  inter_char_timeout_count = increment c.inter_char_timeout_count;
}
add_discard_count resync c = record c { resync_count = increment c.resync_count }
add_discard_count empty_frame c = record c { empty_frame_count = increment c.empty_frame_count }
add_discard_count (unlisted_reason name) c = c

pub record OpenFailureCounts : Type 0 where
  pub absent_count : ℕ
  pub busy_count : ℕ
  pub permission_denied_count : ℕ
  pub read_only_count : ℕ
  pub disconnected_count : ℕ
  pub port_error_count : ℕ
  pub unknown_count : ℕ

-- OpenFailureCounts.Add.
unfoldable pub add_open_failure : ErrorClass → OpenFailureCounts → OpenFailureCounts
add_open_failure absent c = record c { absent_count = increment c.absent_count }
add_open_failure busy c = record c { busy_count = increment c.busy_count }
add_open_failure permission_denied c = record c {
  permission_denied_count = increment c.permission_denied_count;
}
add_open_failure read_only c = record c { read_only_count = increment c.read_only_count }
add_open_failure disconnected c = record c { disconnected_count = increment c.disconnected_count }
add_open_failure port_error c = record c { port_error_count = increment c.port_error_count }
add_open_failure _ c = record c { unknown_count = increment c.unknown_count }

pub record DeviceCounters : Type 0 where
  pub rx_frames : ℕ
  pub rx_bytes : ℕ
  pub discards : DiscardCounts
  pub failed_opens : OpenFailureCounts
  pub publish_failures : ℕ
  pub tx_written : ℕ
  pub tx_failed : ℕ
  pub buffer_depth : ℕ

abbrev pub no_discards : DiscardCounts
no_discards = record {
  oversize_count = 0;
  inter_char_timeout_count = 0;
  resync_count = 0;
  empty_frame_count = 0;
}

abbrev pub no_open_failures : OpenFailureCounts
no_open_failures = record {
  absent_count = 0;
  busy_count = 0;
  permission_denied_count = 0;
  read_only_count = 0;
  disconnected_count = 0;
  port_error_count = 0;
  unknown_count = 0;
}

abbrev pub no_counts : DeviceCounters
no_counts = record {
  rx_frames = 0;
  rx_bytes = 0;
  discards = no_discards;
  failed_opens = no_open_failures;
  publish_failures = 0;
  tx_written = 0;
  tx_failed = 0;
  buffer_depth = 0;
}
