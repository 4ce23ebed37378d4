-- ===== src/Wire/Varint/Canonical.antt =====
-- wire/varint.go: what uvarint accepts.
use a2kit.Common.{
  ℕ, zero, suc, ◌+◌, ◌*◌, ◌%◌, ◌^◌, ◌<◌, ◌≡◌, true, List, [], ◌∷◌, ◌++◌, arith, length, All, IsByte,
  IsU32, inl, inr, Bool-cases, bit_at,
}
use a2kit.Wire.Varint.{value, uvarint_loop, uvarint, leb128}
use a2kit.Wire.Varint.Encoding.{with_group_adds}

-- The bytes `p` from index `i` on begin with the minimal encoding of a number `x`, whose shift `s`
-- over `v` gives `u`.
record Found (k i s v lim : ℕ) (p : List ℕ) (u w : ℕ) : Type 0 where
  x : ℕ
  rest : List ℕ
  fits : x < lim
  minimal : 0 < i → 0 < x
  adds : u ≡ v + x * s
  begins : p ≡ leb128 k x ++ rest
  width : w ≡ i + length (leb128 k x)

last-Found :
    (k i s v lim b : ℕ) (p : List ℕ) (u w : ℕ)
    → b < 128
    → b < lim
    → (0 < i → 0 < b)
    → u ≡ v + b * s
    → w ≡ i + 1
    → Found k i s v lim (b ∷ p) u w
unfolding leb128
last-Found zero i s v lim b p u w h l m e g = record {
  x = b;
  rest = p;
  fits = l;
  minimal = m;
  adds = e;
  begins = ground arith;
  width = ground arith;
}
last-Found (suc k) i s v lim b p u w h l m e g = record {
  x = b;
  rest = p;
  fits = l;
  minimal = m;
  adds = e;
  begins = ground arith;
  width = ground arith;
}

more-Found :
    (k i s v lim b : ℕ) (p : List ℕ) (u w : ℕ)
    → b < 256
    → bit_at b 7 ≡ true
    → Found k (i + 1) (128 * s) (v + b % 128 * s) lim p u w
    → Found (suc k) i s v (128 * lim) (b ∷ p) u w
unfolding leb128
more-Found k i s v lim b p u w hb more r = record {
  x = b % 128 + 128 * r.x;
  rest = r.rest;
  fits = omega arith;
  minimal = λ _. omega (arith, r.minimal (omega arith));
  adds = omega arith;
  begins = ground (arith, r.minimal (omega arith));
  width = ground (arith, r.minimal (omega arith));
}

found4 :
    (v : ℕ) (p : List ℕ) (u w : ℕ)
    → v < 2 ^ 28
    → All IsByte p
    → uvarint_loop 1 4 v p ≡ value u w
    → Found 0 4 (2 ^ 28) v (2 ^ 4) p u w
unfolding uvarint_loop
found4 v [] u w hv hp e = cc
found4 v (b ∷ p) u w hv hp e =
    last-Found 0 4 (2 ^ 28) v 16 b p u w (ground arith) (ground arith) (λ _. ground arith)
      (ground (arith, with_group_adds 4 v b)) (ground arith)

found3 :
    (v : ℕ) (p : List ℕ) (u w : ℕ)
    → v < 2 ^ 21
    → All IsByte p
    → uvarint_loop 2 3 v p ≡ value u w
    → Found 1 3 (2 ^ 21) v (2 ^ 11) p u w
unfolding uvarint_loop
found3 v [] u w hv hp e = cc
found3 v (b ∷ p) u w hv hp e = elim (Bool-cases (bit_at b 7)) [
  | inl more ↦ more-Found 0 3 (2 ^ 21) v (2 ^ 4) b p u w hp.0 more (
      found4 (v + b % 128 * 2 ^ 21) p u w (omega arith) hp.1
        (ground (arith, with_group_adds 3 v b)))
  | inr last ↦
      last-Found 1 3 (2 ^ 21) v (2 ^ 11) b p u w (ground arith) (ground arith) (λ _. ground arith)
        (ground (arith, with_group_adds 3 v b)) (ground arith)
]

found2 :
    (v : ℕ) (p : List ℕ) (u w : ℕ)
    → v < 2 ^ 14
    → All IsByte p
    → uvarint_loop 3 2 v p ≡ value u w
    → Found 2 2 (2 ^ 14) v (2 ^ 18) p u w
unfolding uvarint_loop
found2 v [] u w hv hp e = cc
found2 v (b ∷ p) u w hv hp e = elim (Bool-cases (bit_at b 7)) [
  | inl more ↦ more-Found 1 2 (2 ^ 14) v (2 ^ 11) b p u w hp.0 more (
      found3 (v + b % 128 * 2 ^ 14) p u w (omega arith) hp.1
        (ground (arith, with_group_adds 2 v b)))
  | inr last ↦
      last-Found 2 2 (2 ^ 14) v (2 ^ 18) b p u w (ground arith) (ground arith) (λ _. ground arith)
        (ground (arith, with_group_adds 2 v b)) (ground arith)
]

found1 :
    (v : ℕ) (p : List ℕ) (u w : ℕ)
    → v < 2 ^ 7
    → All IsByte p
    → uvarint_loop 4 1 v p ≡ value u w
    → Found 3 1 (2 ^ 7) v (2 ^ 25) p u w
unfolding uvarint_loop
found1 v [] u w hv hp e = cc
found1 v (b ∷ p) u w hv hp e = elim (Bool-cases (bit_at b 7)) [
  | inl more ↦ more-Found 2 1 (2 ^ 7) v (2 ^ 18) b p u w hp.0 more (
      found2 (v + b % 128 * 2 ^ 7) p u w (omega arith) hp.1 (ground (arith, with_group_adds 1 v b)))
  | inr last ↦
      last-Found 3 1 (2 ^ 7) v (2 ^ 25) b p u w (ground arith) (ground arith) (λ _. ground arith)
        (ground (arith, with_group_adds 1 v b)) (ground arith)
]

found0 :
    (v : ℕ) (p : List ℕ) (u w : ℕ)
    → v < 2 ^ 0
    → All IsByte p
    → uvarint_loop 5 0 v p ≡ value u w
    → Found 4 0 (2 ^ 0) v (2 ^ 32) p u w
unfolding uvarint_loop
found0 v [] u w hv hp e = cc
found0 v (b ∷ p) u w hv hp e = elim (Bool-cases (bit_at b 7)) [
  | inl more ↦ more-Found 3 0 (2 ^ 0) v (2 ^ 25) b p u w hp.0 more (
      found1 (v + b % 128 * 2 ^ 0) p u w (omega arith) hp.1 (ground (arith, with_group_adds 0 v b)))
  | inr last ↦
      last-Found 4 0 (2 ^ 0) v (2 ^ 32) b p u w (ground arith) (ground arith)
        (λ z. absurd (omega arith)) (ground (arith, with_group_adds 0 v b)) (ground arith)
]

-- What uvarint accepts is a 32-bit number in its minimal encoding, at the start of the input, and
-- the width is that encoding's length.
pub uvarint_canonical :
    (p : List ℕ) (v w : ℕ)
    → All IsByte p
    → uvarint p ≡ value v w
    → (rest : List ℕ) × (p ≡ leb128 4 v ++ rest) × (w ≡ length (leb128 4 v)) × IsU32 v
unfolding uvarint
uvarint_canonical p v w h e =
    let r : Found 4 0 1 0 (2 ^ 32) p v w = found0 0 p v w (omega arith) h e in
    (r.rest, ground arith, ground arith, omega arith)
