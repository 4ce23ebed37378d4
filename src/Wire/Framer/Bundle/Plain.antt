-- ===== src/Wire/Framer/Bundle/Plain.antt =====
-- wire/framer.go: parse on a body that is no bundle.
use a2kit.Common.{ℕ, suc, ◌≡◌, ◌≢◌, List, ◌∷◌, Option, arith}
use a2kit.Wire.Framer.Bundle.{Out, give, parse}

-- A body whose second byte is not 0xFF is emitted as it is, at every depth.
pub parse-plain :
    (uncompress : List ℕ → ℕ → Option (List ℕ)) (known_only trusted : _) (levels used op0 op1 : ℕ)
    (p : List ℕ) (flags : ℕ) (o : Out)
    → op1 ≢ 0xFF
    → parse uncompress known_only trusted (suc levels) used (op0 ∷ op1 ∷ p) flags o
      ≡ give uncompress known_only trusted (op0 ∷ op1 ∷ p) flags o
unfolding parse
parse-plain uncompress known_only trusted levels used op0 op1 p flags o h = ground arith
