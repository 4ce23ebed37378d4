-- ===== src/Wire/Varint.antt =====
-- wire/varint.go: the LEB128 varint that begins a frame.
pub mod Encoding
pub mod Canonical
pub mod Prefix
use a2kit.Common.{
  ℕ, zero, suc, ◌+◌, ◌*◌, ◌/◌, ◌%◌, ◌^◌, bit_or, ◌&&◌, List, [], ◌∷◌, ltb, ◌==◌, if◌then◌else◌,
  bit_at,
}

-- A width of 0, a negative width, or a value and its width
pub data Varint : Type 0 where
  short : Varint
  bad : Varint
  value : ℕ → ℕ → Varint

-- v |= uint32(b & 0x7F) << (7 * i)
abbrev pub with_group : ℕ → ℕ → ℕ → ℕ
with_group i v b = bit_or v (b % 128 * 2 ^ (7 * i) % 2 ^ 32)

-- for i := range 5, with the rounds left first, on the bytes from index i on
uvarint_loop : ℕ → ℕ → ℕ → List ℕ → Varint
uvarint_loop zero i v p = bad
uvarint_loop (suc k) i v [] = short
uvarint_loop (suc k) i v (b ∷ p) =
    let more = uvarint_loop k (i + 1) (with_group i v b) p in
    if bit_at b 7
    then more
    else if i == 4 && ltb 0x0F b
    then bad
    else if ltb 0 i && b == 0
    then bad
    else value (with_group i v b) (i + 1)

unfoldable pub uvarint : List ℕ → Varint
unfolding uvarint_loop
uvarint p = uvarint_loop 5 0 0 p

-- The minimal encoding of `v` in at most `k + 1` bytes.
unfoldable pub leb128 : ℕ → ℕ → List ℕ
leb128 zero v = v ∷ []
leb128 (suc k) v =
    let rest = leb128 k (v / 128) in if ltb v 128 then v ∷ [] else (v % 128 + 128) ∷ rest
