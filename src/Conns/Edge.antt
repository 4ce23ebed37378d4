-- ===== src/Conns/Edge.antt =====
-- conns.go: edge, the furthest byte one side has sent.
use a2kit.Common.{ℕ, ◌%◌, ◌+◌, ◌^◌, min, Bool, true, false, not, if◌then◌else◌, sub32}
use a2kit.Wire.Decoder.State.{after}

pub record Edge : Type 0 where
  pub end : ℕ
  pub seen : Bool

abbrev pub no_edge : Edge
no_edge = record { end = 0; seen = false }

unfoldable pub advance : Edge → ℕ → ℕ → ℕ × Edge
unfolding after
advance e seq n =
    let end = (seq + n) % 2 ^ 32 in
    if not e.seen
    then (n, record { end = end; seen = true })
    else if after end e.end
    then (min n (sub32 end e.end), record e { end = end })
    else (0, e)
