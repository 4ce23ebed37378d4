-- ===== src/Wire/Varint/Prefix.antt =====
-- wire/varint.go: how many bytes uvarint takes, and what follows them.
use a2kit.Common.{ℕ, zero, suc, ◌+◌, ◌≤◌, ◌≡◌, ◌≢◌, List, [], ◌∷◌, ◌++◌, arith, length}
use a2kit.Wire.Varint.{short, value, with_group, uvarint_loop, uvarint}

uvarint_loop_width :
    (k i v : ℕ) (p : List ℕ) (u w : ℕ)
    → uvarint_loop k i v p ≡ value u w
    → (i + 1 ≤ w) × (w ≤ i + k) × (w ≤ i + length p)
unfolding uvarint_loop
uvarint_loop_width zero i v p u w e = cc
uvarint_loop_width (suc k) i v [] u w e = cc
uvarint_loop_width (suc k) i v (b ∷ p) u w e =
    ground (arith, uvarint_loop_width k (i + 1) (with_group i v b) p u w)

-- A varint takes one to five bytes, all of them there.
pub uvarint_width :
    (p : List ℕ) (v w : ℕ) → uvarint p ≡ value v w → (1 ≤ w) × (w ≤ 5) × (w ≤ length p)
unfolding uvarint
uvarint_width p v w e = omega (arith, uvarint_loop_width 5 0 0 p v w e)

uvarint_loop-append :
    (k i v : ℕ) (p q : List ℕ)
    → uvarint_loop k i v p ≢ short
    → uvarint_loop k i v (p ++ q) ≡ uvarint_loop k i v p
unfolding uvarint_loop
uvarint_loop-append zero i v p q h = ground arith
uvarint_loop-append (suc k) i v [] q h = absurd (ground arith)
uvarint_loop-append (suc k) i v (b ∷ p) q h =
    ground (arith, uvarint_loop-append k (i + 1) (with_group i v b) p q)

-- An answer that is not short stays the same when more bytes arrive.
pub uvarint-append : (p q : List ℕ) → uvarint p ≢ short → uvarint (p ++ q) ≡ uvarint p
unfolding uvarint
uvarint-append p q h = uvarint_loop-append 5 0 0 p q h

-- An input that is short has fewer than five bytes.
uvarint_loop-short : (k i v : ℕ) (p : List ℕ) → uvarint_loop k i v p ≡ short → length p + 1 ≤ k
unfolding uvarint_loop
uvarint_loop-short zero i v p e = cc
uvarint_loop-short (suc k) i v [] e = omega arith
uvarint_loop-short (suc k) i v (b ∷ p) e =
    ground (arith, uvarint_loop-short k (i + 1) (with_group i v b) p)

pub uvarint-short : (p : List ℕ) → uvarint p ≡ short → length p ≤ 4
unfolding uvarint
uvarint-short p e = omega (arith, uvarint_loop-short 5 0 0 p e)
