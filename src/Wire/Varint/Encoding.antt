-- ===== src/Wire/Varint/Encoding.antt =====
-- wire/varint.go: uvarint on minimal encodings.
use a2kit.Common.{
  ℕ, zero, suc, ◌+◌, ◌*◌, ◌/◌, ◌%◌, ◌^◌, ◌≤◌, ◌<◌, ◌≡◌, List, ◌∷◌, ◌++◌, arith, length, IsU32,
}
use a2kit.Common.Bits.{bit_or_disjoint}
use native.Mathlib.Nat.{mod-eq_of_lt}
use a2kit.Wire.Varint.{value, with_group, uvarint_loop, uvarint, leb128}

-- `|=` adds a group whose bits fit above those read before.
pub with_group_adds :
    (i v b : ℕ)
    → v < 2 ^ (7 * i)
    → b % 128 * 2 ^ (7 * i) < 2 ^ 32
    → with_group i v b ≡ v + b % 128 * 2 ^ (7 * i)
with_group_adds i v b hv hb = rw (mod-eq_of_lt hb) (bit_or_disjoint (7 * i) v (b % 128) hv)

-- Round 4, the last: it takes the top four bits.
round4 :
    (v w : ℕ) (rest : List ℕ)
    → v < 2 ^ 28
    → 0 < w
    → w < 16
    → uvarint_loop 1 4 v (w ∷ rest) ≡ value (v + w * 2 ^ 28) 5
unfolding uvarint_loop
round4 v w rest hv lo hi = ground (arith, with_group_adds 4 v w)

round3 :
    (v w : ℕ) (rest : List ℕ)
    → v < 2 ^ 21
    → 0 < w
    → w < 2 ^ 11
    → uvarint_loop 2 3 v (leb128 1 w ++ rest) ≡ value (v + w * 2 ^ 21) (3 + length (leb128 1 w))
unfolding uvarint_loop leb128
round3 v w rest hv lo hi = ground (
  arith,
  with_group_adds 3 v w,
  with_group_adds 3 v (w % 128 + 128),
  round4 (v + w % 128 * 2 ^ 21) (w / 128) rest,
)

round2 :
    (v w : ℕ) (rest : List ℕ)
    → v < 2 ^ 14
    → 0 < w
    → w < 2 ^ 18
    → uvarint_loop 3 2 v (leb128 2 w ++ rest) ≡ value (v + w * 2 ^ 14) (2 + length (leb128 2 w))
unfolding uvarint_loop leb128
round2 v w rest hv lo hi = ground (
  arith,
  with_group_adds 2 v w,
  with_group_adds 2 v (w % 128 + 128),
  round3 (v + w % 128 * 2 ^ 14) (w / 128) rest,
)

round1 :
    (v w : ℕ) (rest : List ℕ)
    → v < 2 ^ 7
    → 0 < w
    → w < 2 ^ 25
    → uvarint_loop 4 1 v (leb128 3 w ++ rest) ≡ value (v + w * 2 ^ 7) (1 + length (leb128 3 w))
unfolding uvarint_loop leb128
round1 v w rest hv lo hi = ground (
  arith,
  with_group_adds 1 v w,
  with_group_adds 1 v (w % 128 + 128),
  round2 (v + w % 128 * 2 ^ 7) (w / 128) rest,
)

uvarint_one : (v : ℕ) (rest : List ℕ) → v < 128 → uvarint (v ∷ rest) ≡ value v 1
unfolding uvarint uvarint_loop
uvarint_one v rest h = ground (arith, with_group_adds 0 0 v)

uvarint_more :
    (b : ℕ) (rest : List ℕ) → b < 128 → uvarint ((b + 128) ∷ rest) ≡ uvarint_loop 4 1 b rest
unfolding uvarint uvarint_loop
uvarint_more b rest h = ground (arith, with_group_adds 0 0 (b + 128))

-- uvarint reads back the minimal encoding of any 32-bit number, and takes just its bytes, whatever
-- follows.
pub uvarint-leb128 :
    (v : ℕ) (rest : List ℕ) → IsU32 v → uvarint (leb128 4 v ++ rest) ≡ value v (length (leb128 4 v))
unfolding leb128
uvarint-leb128 v rest h = ground (
  arith,
  uvarint_one v rest,
  uvarint_more (v % 128) (leb128 3 (v / 128) ++ rest),
  round1 (v % 128) (v / 128) rest,
)

pub length-leb128 : (k v : ℕ) → (1 ≤ length (leb128 k v)) × (length (leb128 k v) ≤ k + 1)
unfolding leb128
length-leb128 zero v = omega arith
length-leb128 (suc k) v = ground (arith, length-leb128 k (v / 128))
