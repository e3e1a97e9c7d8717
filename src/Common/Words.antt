-- ===== src/Common/Words.antt =====
-- Go's `uint64`, kept as a number below 2 ^ 64, and `int64`, kept as an integer: arithmetic on it is
-- done modulo 2 ^ 64.
use Prim.Native.Nat.{ℕ, ◌-◌, ◌*◌, ◌%◌, ◌^◌}
use device_serial_scanner.Common.Tests.{ltb, if◌then◌else◌}
use device_serial_scanner.Common.Integers.{ℤ, pos, negsuc}

abbrev pub u64 : ℕ → ℕ
u64 n = n % 2 ^ 64

-- int64 of a number that is not negative.
unfoldable pub int64 : ℕ → ℤ
int64 n = let m = n % 2 ^ 64 in if ltb m (2 ^ 63) then pos m else negsuc (2 ^ 64 - 1 - m)

-- An int64 as a number modulo 2 ^ 64.
abbrev pub residue : ℤ → ℕ
residue (pos n) = n
residue (negsuc n) = 2 ^ 64 - 1 - n

-- `wait *= 2` on a time.Duration.
unfoldable pub double : ℤ → ℤ
unfolding int64
double wait = int64 (residue wait * 2)
