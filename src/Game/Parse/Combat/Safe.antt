-- ===== src/Game/Parse/Combat/Safe.antt =====
-- game/parse.go: where the readers of hits, casts, kills, deaths and falls stop.
use a2kit.Common.{ℕ}
use a2kit.Game.Reader.Safe.{IsSafe, safe_rules, times-IsSafe, u32s-IsSafe, pos-IsSafe}
use a2kit.Game.Events.{Hit}
use a2kit.Game.Parse.Combat.{hit_end, hit_rest, hit, death, fall, kill, cast, cast_end}

hit_end-IsSafe : (h : Hit) (sw : ℕ) → IsSafe (hit_end h sw)
unfolding hit_end
hit_end-IsSafe h sw = search (safe_rules, u32s-IsSafe) depth 40

hit_rest-IsSafe : (h : Hit) (sw : ℕ) → IsSafe (hit_rest h sw)
unfolding hit_rest
hit_rest-IsSafe h sw = search (safe_rules, times-IsSafe, hit_end-IsSafe) depth 40

pub hit-IsSafe : IsSafe hit
unfolding hit
hit-IsSafe = search (safe_rules, hit_rest-IsSafe) depth 40

pub death-IsSafe : IsSafe death
unfolding death
death-IsSafe = search safe_rules depth 40

pub fall-IsSafe : IsSafe fall
unfolding fall
fall-IsSafe = search safe_rules depth 40

pub kill-IsSafe : IsSafe kill
unfolding kill
kill-IsSafe = search safe_rules depth 60

pub cast-IsSafe : IsSafe cast
unfolding cast
cast-IsSafe = search (safe_rules, pos-IsSafe) depth 60

pub cast_end-IsSafe : IsSafe cast_end
unfolding cast_end
cast_end-IsSafe = search safe_rules depth 40
