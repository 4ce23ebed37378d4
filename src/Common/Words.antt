-- ===== src/Common/Words.antt =====
-- Bytes and machine words. A byte or a word is a plain number; its range is stated where it matters.
use Prim.Native.Nat.{ℕ, ◌+◌, ◌-◌, ◌*◌, ◌/◌, ◌%◌, ◌^◌, ◌<◌, bit_and}
use mathlib.Core.List.{List}
use mathlib.Core.Bool.{Bool}
use a2kit.Common.Tests.{◌==◌, ltb, if◌then◌else◌}
use a2kit.Common.Lists.{get_or}

abbrev pub IsByte : ℕ → Type 0
IsByte b = b < 256

abbrev pub IsU32 : ℕ → Type 0
IsU32 v = v < 2 ^ 32

-- b[i], read within bounds by every caller; 0 stands for the panic that does not occur.
abbrev pub byte_at : List ℕ → ℕ → ℕ
byte_at p i = get_or p i 0

-- x & (1 << k) != 0
abbrev pub bit_at : ℕ → ℕ → Bool
bit_at x k = x / 2 ^ k % 2 == 1

-- x &^ m, the bits of x that are not in m
abbrev pub and_not : ℕ → ℕ → ℕ
and_not x m = x - bit_and x m

-- binary.LittleEndian.Uint16, Uint32 and Uint64 of encoding/binary
abbrev pub u16_le : List ℕ → ℕ
u16_le b = byte_at b 0 + 256 * byte_at b 1

abbrev pub u32_le : List ℕ → ℕ
u32_le b = byte_at b 0 + 256 * byte_at b 1 + 65536 * byte_at b 2 + 16777216 * byte_at b 3

abbrev pub u64_le : List ℕ → ℕ
u64_le b =
    byte_at b 0
    + 2 ^ 8 * byte_at b 1
    + 2 ^ 16 * byte_at b 2
    + 2 ^ 24 * byte_at b 3
    + 2 ^ 32 * byte_at b 4
    + 2 ^ 40 * byte_at b 5
    + 2 ^ 48 * byte_at b 6
    + 2 ^ 56 * byte_at b 7

-- A signed integer: `negsuc n` is -(n + 1).
pub data ℤ : Type 0 where
  pos : ℕ → ℤ
  negsuc : ℕ → ℤ

-- int32(w) and int64(w) of an unsigned word
abbrev pub signed32 : ℕ → ℤ
signed32 w = if ltb w (2 ^ 31) then pos w else negsuc (2 ^ 32 - w - 1)

abbrev pub signed64 : ℕ → ℤ
signed64 w = if ltb w (2 ^ 63) then pos w else negsuc (2 ^ 64 - w - 1)

-- a - b on uint32, and int32(a-b) > 0
abbrev pub sub32 : ℕ → ℕ → ℕ
sub32 a b = (a + 2 ^ 32 - b) % 2 ^ 32

abbrev pub add32 : ℕ → ℕ → ℕ
add32 a b = (a + b) % 2 ^ 32
