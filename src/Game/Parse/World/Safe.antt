-- ===== src/Game/Parse/World/Safe.antt =====
-- game/parse.go: where the readers of the clocks, what enters view and movement stop.
use a2kit.Common.{Bool}
use a2kit.Game.Reader.Safe.{IsSafe, safe_rules, pos-IsSafe}
use a2kit.Game.Parse.World.{
  spawn, object, character, player, self, move_a, move_b, tick, ping, zone, name_check,
}

pub spawn-IsSafe : IsSafe spawn
unfolding spawn
spawn-IsSafe = search (safe_rules, pos-IsSafe) depth 60

pub object-IsSafe : IsSafe object
unfolding object
object-IsSafe = search (safe_rules, pos-IsSafe) depth 60

character-IsSafe : (b : Bool) → IsSafe (character b)
unfolding character
character-IsSafe b = search safe_rules depth 60

pub player-IsSafe : IsSafe player
unfolding player
player-IsSafe = search character-IsSafe

pub self-IsSafe : IsSafe self
unfolding self
self-IsSafe = search character-IsSafe

pub move_a-IsSafe : IsSafe move_a
unfolding move_a
move_a-IsSafe = search (safe_rules, pos-IsSafe) depth 60

pub move_b-IsSafe : IsSafe move_b
unfolding move_b
move_b-IsSafe = search (safe_rules, pos-IsSafe) depth 60

pub tick-IsSafe : IsSafe tick
unfolding tick
tick-IsSafe = search safe_rules depth 60

pub ping-IsSafe : IsSafe ping
unfolding ping
ping-IsSafe = search safe_rules depth 60

pub zone-IsSafe : IsSafe zone
unfolding zone
zone-IsSafe = search (safe_rules, pos-IsSafe) depth 60

pub name_check-IsSafe : IsSafe name_check
unfolding name_check
name_check-IsSafe = search safe_rules depth 60
