-- ===== src/Game/Std/Width.antt =====
-- How many bytes binary.Uvarint takes.
use a2kit.Common.{ℕ, suc, ◌+◌, ◌*◌, ◌%◌, ◌^◌, ◌≤◌, ◌≡◌, bit_or, List, [], ◌∷◌, some, arith, length}
use a2kit.Game.Std.{uvarint_loop, uvarint}

uvarint_loop_width :
    (p : List ℕ) (i s x v n : ℕ)
    → uvarint_loop p i s x ≡ some (v, n)
    → (suc i ≤ n) × (n ≤ i + length p)
unfolding uvarint_loop
uvarint_loop_width [] i s x v n e = ground arith
uvarint_loop_width (b ∷ rest) i s x v n e =
    ground
      (arith, uvarint_loop_width rest (i + 1) (s + 7) (bit_or x (b % 128 * 2 ^ s % 2 ^ 64)) v n)

pub uvarint_width : (p : List ℕ) (v n : ℕ) → uvarint p ≡ some (v, n) → (1 ≤ n) × (n ≤ length p)
unfolding uvarint
uvarint_width p v n e = omega (arith, uvarint_loop_width p 0 0 0 v n e)
