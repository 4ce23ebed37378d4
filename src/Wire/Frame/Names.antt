-- ===== src/Wire/Frame/Names.antt =====
-- wire/frame.go: the names of flags, both ways.
use a2kit.Common.{ℕ, zero, suc, ◌<◌, ◌≡◌, refl, Bool, true, ◌&&◌, ◌==◌, ==_iff, arith}
use a2kit.Wire.Frame.{names, from_names}

-- A test on every number below a limit
abbrev all_below : ℕ → (ℕ → Bool) → Bool
all_below zero P = true
all_below (suc n) P = P n && all_below n P

all_below_lem : (n : ℕ) (P : ℕ → Bool) (i : ℕ) → all_below n P ≡ true → i < n → P i ≡ true
all_below_lem zero P i e h = absurd (omega arith)
all_below_lem (suc n) P i e h = ground (arith, all_below_lem n P i)

each_comes_back : all_below 32 (λ f. from_names (names f) == f) ≡ true
unfolding from_names names
each_comes_back = refl

-- The flags that have names come back from their names, in any combination.
pub from_names-names : (f : ℕ) → f < 32 → from_names (names f) ≡ f
from_names-names f h =
    (==_iff (from_names (names f)) f).0
      (all_below_lem 32 (λ g. from_names (names g) == g) f each_comes_back h)
