-- ===== src/Analyze/Between.antt =====
-- analyze.go: between, on messages that are sorted by time; `none` is the panic of a slice whose
-- ends are out of order.
pub mod HalfOpen
use a2kit.Common.{
  ℕ, ◌-◌, zero, suc, ◌+◌, List, [], ◌∷◌, Option, none, some, ltb, if◌then◌else◌, take, drop,
}
use a2kit.Messages.{Message}

-- slices.BinarySearchFunc, which finds the first message that is not before a time
unfoldable pub first_at : ℕ → List Message → ℕ
first_at t [] = 0
first_at t (m ∷ ms) = let rest = first_at t ms in if ltb m.frame.time t then suc rest else 0

unfoldable pub between : ℕ → ℕ → List Message → Option (List Message)
unfolding first_at
between t0 t1 ms =
    let i = first_at t0 ms in
    let j = first_at t1 ms in if ltb j i then none else some (take (j - i) (drop i ms))
