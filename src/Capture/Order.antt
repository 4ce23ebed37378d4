-- ===== src/Capture/Order.antt =====
-- encoding/binary's two byte orders, and big-endian words, which package capture reads.
use a2kit.Common.{ℕ, ◌+◌, ◌*◌, ◌/◌, ◌%◌, ◌^◌, List, [], ◌∷◌, byte_at, drop, u16_le, u32_le, u64_le}

pub data Order : Type 0 where
  little : Order
  big : Order

abbrev pub u16_be : List ℕ → ℕ
u16_be b = 256 * byte_at b 0 + byte_at b 1

abbrev pub u32_be : List ℕ → ℕ
u32_be b = 2 ^ 16 * u16_be b + u16_be (drop 2 b)

abbrev pub u64_be : List ℕ → ℕ
u64_be b = 2 ^ 32 * u32_be b + u32_be (drop 4 b)

abbrev pub u16 : Order → List ℕ → ℕ
u16 little b = u16_le b
u16 big b = u16_be b

abbrev pub u32 : Order → List ℕ → ℕ
u32 little b = u32_le b
u32 big b = u32_be b

abbrev pub u64 : Order → List ℕ → ℕ
u64 little b = u64_le b
u64 big b = u64_be b

-- The bytes of a word: AppendUint16, AppendUint32 and AppendUint64
abbrev pub u16_bytes : ℕ → List ℕ
u16_bytes v = v % 256 ∷ v / 2 ^ 8 % 256 ∷ []

abbrev pub u32_bytes : ℕ → List ℕ
u32_bytes v = v % 256 ∷ v / 2 ^ 8 % 256 ∷ v / 2 ^ 16 % 256 ∷ v / 2 ^ 24 % 256 ∷ []

abbrev pub u32_bytes_be : ℕ → List ℕ
u32_bytes_be v = v / 2 ^ 24 % 256 ∷ v / 2 ^ 16 % 256 ∷ v / 2 ^ 8 % 256 ∷ v % 256 ∷ []
