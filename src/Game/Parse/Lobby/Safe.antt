-- ===== src/Game/Parse/Lobby/Safe.antt =====
-- game/parse.go: where the readers of the lobby's messages stop.
use a2kit.Common.{ℕ, zero, suc, ◌+◌, Bool, true, false, ◌∷◌}
use a2kit.Game.Reader.Safe.{IsSafe, safe_rules, pure-IsSafe, bind-IsSafe}
use a2kit.Game.Parse.Lobby.{
  group_bits, load_at, capacity_of, server, server_list, servers, redirect, account, entry,
  entry_list, characters, lobby_ping,
}

group_bits-IsSafe : (i n mask : ℕ) → IsSafe (group_bits i n mask)
unfolding group_bits
group_bits-IsSafe i n mask = search safe_rules depth 60

load_at-IsSafe : (i : ℕ) (load : Bool) → IsSafe (load_at i load)
unfolding load_at
load_at-IsSafe i load = search safe_rules

capacity_of-IsSafe : (load : Bool) → IsSafe (capacity_of load)
unfolding capacity_of
capacity_of-IsSafe true = search safe_rules
capacity_of-IsSafe false = search safe_rules

server-IsSafe : (i n mask : ℕ) (load : Bool) → IsSafe (server i n mask load)
unfolding server
server-IsSafe i n mask load =
    search (safe_rules, group_bits-IsSafe, load_at-IsSafe, capacity_of-IsSafe) depth 60

server_list-IsSafe : (k i n mask : ℕ) (load : Bool) → IsSafe (server_list k i n mask load)
unfolding server_list
server_list-IsSafe zero i n mask load = pure-IsSafe _
server_list-IsSafe (suc k) i n mask load =
    bind-IsSafe _ _ (server-IsSafe i n mask load)
      λ t. bind-IsSafe _ _ (server_list-IsSafe k (i + 1) n t.1 t.2) λ rest. pure-IsSafe (t.0 ∷ rest)

pub servers-IsSafe : IsSafe servers
unfolding servers
servers-IsSafe = search (safe_rules, server_list-IsSafe) depth 60

pub redirect-IsSafe : IsSafe redirect
unfolding redirect
redirect-IsSafe = search safe_rules depth 60

pub account-IsSafe : IsSafe account
unfolding account
account-IsSafe = search safe_rules depth 60

entry-IsSafe : (i n mask : ℕ) → IsSafe (entry i n mask)
unfolding entry
entry-IsSafe i n mask = search (safe_rules, group_bits-IsSafe) depth 60

entry_list-IsSafe : (k i n mask : ℕ) → IsSafe (entry_list k i n mask)
unfolding entry_list
entry_list-IsSafe zero i n mask = pure-IsSafe _
entry_list-IsSafe (suc k) i n mask =
    bind-IsSafe _ _ (entry-IsSafe i n mask)
      λ t. bind-IsSafe _ _ (entry_list-IsSafe k (i + 1) n t.1) λ rest. pure-IsSafe (t.0 ∷ rest)

pub characters-IsSafe : IsSafe characters
unfolding characters
characters-IsSafe = search (safe_rules, entry_list-IsSafe) depth 60

pub lobby_ping-IsSafe : IsSafe lobby_ping
unfolding lobby_ping
lobby_ping-IsSafe = search safe_rules depth 60
