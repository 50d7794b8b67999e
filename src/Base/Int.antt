-- ===== src/Base/Int.antt =====
-- Signed integers over the native numbers, and `int16_t` read from its bit pattern.
use Prim.Native.Nat.{ℕ, ◌-◌, ◌<◌}
use mathlib.Core.Path.{◌≡◌}
use native.Mathlib.Omega.{arith}
use edge_device_esp.Base.Tests.{ltb, if◌then◌else◌}

-- `negsuc n` is -(n + 1).
pub data ℤ : Type 0 where
  pos : ℕ → ℤ
  negsuc : ℕ → ℤ

-- `(int16_t)v` of a `uint16_t`, and the bit pattern of an `int16_t`.
abbrev pub of_bits16 : ℕ → ℤ
of_bits16 v = if ltb v 32768 then pos v else negsuc (65535 - v)

abbrev pub bits16 : ℤ → ℕ
bits16 (pos n) = n
bits16 (negsuc n) = 65535 - n

abbrev pub IsInt16 : ℤ → Type 0
IsInt16 (pos n) = n < 32768
IsInt16 (negsuc n) = n < 32768

pub bits16-IsU16 : (z : ℤ) → IsInt16 z → bits16 z < 65536
bits16-IsU16 (pos n) h = omega arith
bits16-IsU16 (negsuc n) h = omega arith

pub of_bits16-bits16 : (z : ℤ) → IsInt16 z → of_bits16 (bits16 z) ≡ z
of_bits16-bits16 (pos n) h = ground arith
of_bits16-bits16 (negsuc n) h = ground arith
