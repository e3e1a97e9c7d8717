-- ===== src/Mqtt/Client/Expiry.antt =====
-- A message's expiry and the keepalive as the protocol's fields hold them, internal/transport/mqtt/client.go.
use device_serial_scanner.Common.{
  ℕ, ◌^◌, ◌<◌, ◌≤◌, ◌≡◌, ◌↔◌, ℤ, negsuc, false, pos, at_least, arith,
}
use device_serial_scanner.Mqtt.Client.{Library, message_expiry_interval, keepalive_seconds}

-- Both conversions fit their fields, whatever the durations: the message expiry 32 bits, and the
-- keepalive 16. If a positive duration rounds up to a second at least, the expiry is 0, which means
-- none, exactly when the duration is not positive; and the keepalive is never 0, which would turn it
-- off.
pub message_expiry_interval-keepalive_seconds :
    (lib : Library) (expiry delay : ℤ)
    → ((d : ℕ) → 1 ≤ d → 1 ≤ lib.ceil_seconds d)
    → (message_expiry_interval lib expiry < 2 ^ 32)
      × ((message_expiry_interval lib expiry ≡ 0) ↔ (at_least 1 expiry ≡ false))
      × (1 ≤ keepalive_seconds lib delay)
      × (keepalive_seconds lib delay < 2 ^ 16)
unfolding message_expiry_interval keepalive_seconds
message_expiry_interval-keepalive_seconds lib (pos n) delay up =
    (ground (arith, up n), ground (arith, up n), ground arith, ground arith)
message_expiry_interval-keepalive_seconds lib (negsuc n) delay up =
    (ground arith, ground arith, ground arith, ground arith)
