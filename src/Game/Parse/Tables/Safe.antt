-- ===== src/Game/Parse/Tables/Safe.antt =====
-- game/parse.go: where the readers of stat tables, gauges and scores stop.
use a2kit.Common.{ℕ, zero, suc, Bool, List, ◌∷◌, ℤ, signed32}
use a2kit.Game.Reader.{Read}
use a2kit.Game.Reader.Safe.{
  IsSafe, safe_rules, pure-IsSafe, bind-IsSafe, u16-IsSafe, u8-IsSafe, u32-IsSafe,
}
use a2kit.Game.Events.{Stats}
use a2kit.Game.Parse.Tables.{
  stat_rows, rows, sheet, sheet_update, gauge_rows, gauge_loop, gauges, gear_score, combat_power,
}

stat_rows-IsSafe : (n : ℕ) (m : List (ℕ × ℤ)) → IsSafe (stat_rows n m)
unfolding stat_rows
stat_rows-IsSafe zero m = pure-IsSafe m
stat_rows-IsSafe (suc n) m =
    bind-IsSafe _ _ u16-IsSafe
      λ id. bind-IsSafe _ _ u32-IsSafe λ v. stat_rows-IsSafe n ((id, signed32 v) ∷ m)

rows-IsSafe : (s : Stats) → IsSafe (rows s)
unfolding rows
rows-IsSafe s = search (safe_rules, stat_rows-IsSafe) depth 60

pub sheet-IsSafe : IsSafe sheet
unfolding sheet
sheet-IsSafe = search (safe_rules, rows-IsSafe) depth 60

pub sheet_update-IsSafe : IsSafe sheet_update
unfolding sheet_update
sheet_update-IsSafe = search (safe_rules, rows-IsSafe) depth 60

gauge_rows-IsSafe :
    (n : ℕ) (value : Read ℕ) (m : List (ℕ × ℕ)) → IsSafe value → IsSafe (gauge_rows n value m)
unfolding gauge_rows
gauge_rows-IsSafe zero value m h = pure-IsSafe m
gauge_rows-IsSafe (suc n) value m h =
    bind-IsSafe _ _ u8-IsSafe λ id. bind-IsSafe _ _ h λ v. gauge_rows-IsSafe n value ((id, v) ∷ m) h

gauge_loop-IsSafe :
    (b : Bool) (value : Read ℕ) (m : List (ℕ × ℕ)) → IsSafe value → IsSafe (gauge_loop b value m)
unfolding gauge_loop
gauge_loop-IsSafe b value m h = search (safe_rules, gauge_rows-IsSafe)

pub gauges-IsSafe : IsSafe gauges
unfolding gauges
gauges-IsSafe = search (safe_rules, gauge_loop-IsSafe) depth 60

pub gear_score-IsSafe : IsSafe gear_score
unfolding gear_score
gear_score-IsSafe = search safe_rules depth 60

pub combat_power-IsSafe : IsSafe combat_power
unfolding combat_power
combat_power-IsSafe = search safe_rules depth 60
