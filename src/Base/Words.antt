-- ===== src/Base/Words.antt =====
-- Machine words: bytes in little-endian order, `uint32_t` and `uint64_t` arithmetic, and the
-- conversion of a 48-bit MAC address (`mac_to_u64`, `u64_to_mac_bytes`).
use Prim.Native.Nat.{ℕ, ◌+◌, ◌-◌, ◌*◌, ◌/◌, ◌%◌, ◌^◌, ◌<◌}
use mathlib.Core.Path.{◌≡◌}
use mathlib.Core.List.{List, [], ◌∷◌}
use native.Mathlib.Omega.{arith}

abbrev pub IsByte : ℕ → Type 0
IsByte b = b < 256

abbrev pub IsU16 : ℕ → Type 0
IsU16 v = v < 2 ^ 16

abbrev pub IsU32 : ℕ → Type 0
IsU32 v = v < 2 ^ 32

-- `uint32_t` subtraction wraps. It is the age of a tick at every clock difference below 2^32.
abbrev pub sub32 : ℕ → ℕ → ℕ
sub32 a b = (a + 2 ^ 32 - b) % 2 ^ 32

-- `lo | (hi << 8)`: the bits of two bytes do not overlap, so the disjunction is the sum.
abbrev pub word16 : ℕ → ℕ → ℕ
word16 lo hi = lo + hi * 256

abbrev pub word32 : ℕ → ℕ → ℕ → ℕ → ℕ
word32 b0 b1 b2 b3 = b0 + b1 * 256 + b2 * 65536 + b3 * 16777216

abbrev pub le16_bytes : ℕ → List ℕ
le16_bytes v = v % 256 ∷ v / 256 % 256 ∷ []

abbrev pub le32_bytes : ℕ → List ℕ
le32_bytes v = v % 256 ∷ v / 256 % 256 ∷ v / 65536 % 256 ∷ v / 16777216 % 256 ∷ []

-- The bytes that a word is written as read back as the word.
pub word16-bytes : (v : ℕ) → IsU16 v → word16 (v % 256) (v / 256 % 256) ≡ v
word16-bytes v h = omega arith

pub word32-bytes :
    (v : ℕ) → IsU32 v → word32 (v % 256) (v / 256 % 256) (v / 65536 % 256) (v / 16777216 % 256) ≡ v
word32-bytes v h = omega arith

-- The age of an entry after `d` more milliseconds, as long as the clock has not gone round once.
pub sub32-add : (t d : ℕ) → IsU32 t → d < 2 ^ 32 → sub32 ((t + d) % 2 ^ 32) t ≡ d
sub32-add t d h k = omega arith

pub sub32_self : (t : ℕ) → IsU32 t → sub32 t t ≡ 0
sub32_self t h = omega arith
