-- ===== src/Game/Parse/Tables.antt =====
-- game/parse.go: stat tables, gauges, and the two scores.
pub mod Safe
use a2kit.Common.{
  ℕ, zero, suc, ◌/◌, Bool, true, false, not, List, [], ◌∷◌, Option, none, some, ltb, ◌==◌,
  if◌then◌else◌, bit_at, and_not, ℤ, pos, negsuc, signed32,
}
use a2kit.Game.Reader.{Read, pure, ◌>>=◌, ◌>>◌, fail_if, end, u8, u16, u32, u64, remaining, varint}
use a2kit.Game.Events.{Event, Stats}

-- m[k], and the value's zero where there is none
unfoldable pub row_of {ℓ} : {V : Type ℓ} → V → ℕ → List (ℕ × V) → V
row_of d k [] = d
row_of d k ((j, v) ∷ m) = if j == k then v else row_of d k m

unfoldable pub same_int : ℤ → ℤ → Bool
same_int (pos a) (pos b) = a == b
same_int (negsuc a) (negsuc b) = a == b
same_int _ _ = false

-- for range n, on the rows written so far
unfoldable pub stat_rows : ℕ → List (ℕ × ℤ) → Read (List (ℕ × ℤ))
stat_rows zero m = pure m
stat_rows (suc n) m = u16 >>= λ id. u32 >>= λ v. stat_rows n ((id, signed32 v) ∷ m)

unfoldable pub rows : Stats → Read (Option Event)
unfolding stat_rows same_int row_of
rows s = do
  n ← varint
  l ← remaining
  if ltb (l / 6) n then (do fail_if true; pure none) else (do
    m ← stat_rows n []
    base ← u32
    if not (same_int (signed32 base) (row_of (pos 0) 193 m))
        then fail_if true
        else (do z ← u32; fail_if (not (z == 0)))
    end
    pure (some (Event.stats (record s { rows = m }))))

unfoldable pub sheet : Read (Option Event)
unfolding rows
sheet = do z ← u16; fail_if (not (z == 0)); rows (record { entity = 0; full = true; rows = [] })

unfoldable pub sheet_update : Read (Option Event)
unfolding rows
sheet_update = do entity ← varint; rows (record { entity = entity; full = false; rows = [] })

unfoldable pub gauge_rows : ℕ → Read ℕ → List (ℕ × ℕ) → Read (List (ℕ × ℕ))
gauge_rows zero value m = pure m
gauge_rows (suc n) value m = u8 >>= λ id. value >>= λ v. gauge_rows n value ((id, v) ∷ m)

-- A loop over `range r.u8()`, if its flag is set.
gauge_loop : Bool → Read ℕ → List (ℕ × ℕ) → Read (List (ℕ × ℕ))
unfolding gauge_rows
gauge_loop b value m = if b then (u8 >>= λ n. gauge_rows n value m) else pure m

unfoldable pub gauges : Read (Option Event)
unfolding gauge_loop
gauges = do
  entity ← varint
  mask ← u8
  if not (and_not mask 3 == 0) then (do fail_if true; pure none) else (do
    m ← gauge_loop (bit_at mask 0) u32 []
    m' ← gauge_loop (bit_at mask 1) u64 m
    end
    pure (some (Event.gauges (record { entity = entity; rows = m' }))))

unfoldable pub gear_score : Read (Option Event)
gear_score = do
  now ← u32
  best ← u32
  fail_if (ltb best now)
  end
  pure (some (Event.gear_score (record { now = now; best = best })))

unfoldable pub combat_power : Read (Option Event)
combat_power = do
  now ← u64
  best ← u64
  fail_if (ltb best now)
  end
  pure (some (Event.combat_power (record { now = now; best = best })))
