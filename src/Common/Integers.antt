-- ===== src/Common/Integers.antt =====
-- Go's `int` and `time.Duration` where they may be negative: the bounds that the program tests.
-- The values come from a configuration file, and no arithmetic is done on them here.
use Prim.Native.Nat.{ℕ, ◌≤◌}
use mathlib.Core.Path.{◌≡◌}
use native.Mathlib.Omega.{arith}
use mathlib.Core.Bool.{Bool, true, false}
use device_serial_scanner.Common.Tests.{leb, ltb}

pub data ℤ : Type 0 where
  pos negsuc : ℕ → ℤ

-- n ≤ z
abbrev pub at_least : ℕ → ℤ → Bool
at_least n (pos m) = leb n m
at_least n (negsuc m) = false

-- z ≤ n
abbrev pub at_most : ℕ → ℤ → Bool
at_most n (pos m) = leb m n
at_most n (negsuc m) = true

-- a < b
abbrev pub below : ℤ → ℤ → Bool
below (pos a) (pos b) = ltb a b
below (pos a) (negsuc b) = false
below (negsuc a) (pos b) = true
below (negsuc a) (negsuc b) = ltb b a

-- A number that is not negative, as one of ℕ.
abbrev pub natural : ℤ → ℕ
natural (pos n) = n
natural (negsuc n) = 0

pub at_least-le : (m n : ℕ) (z : ℤ) → m ≤ n → at_least n z ≡ true → at_least m z ≡ true
at_least-le m n (pos k) h e = ground arith
at_least-le m n (negsuc k) h e = absurd (ground arith)
