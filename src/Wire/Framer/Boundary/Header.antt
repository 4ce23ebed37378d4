-- ===== src/Wire/Framer/Boundary/Header.antt =====
-- What envelope has checked of a header when it answers yes.
use a2kit.Common.{ℕ, ◌≤◌, ◌≡◌, Bool, true, List, arith, length, take, u32_le}
use a2kit.Wire.Scan.{Verdict}
use a2kit.Wire.Envelope.{believable}
use a2kit.Wire.Framer.Boundary.{envelope}

-- An envelope is found only where four bytes give a believable length.
pub envelope-yes :
    (known_only : Bool) (p : List ℕ) (after_frame : Bool)
    → envelope known_only p after_frame ≡ Verdict.yes
    → (4 ≤ length p) × (believable (u32_le (take 4 p)) ≡ true)
unfolding envelope believable
envelope-yes known_only p after_frame e = ground arith
