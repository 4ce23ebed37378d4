-- ===== src/Game/Parse/Lobby.antt =====
-- game/parse.go: the lobby's messages.
pub mod Safe
use a2kit.Common.{
  ℕ, zero, suc, ◌+◌, ◌-◌, ◌*◌, ◌/◌, ◌%◌, ◌^◌, Bool, true, false, not, ◌&&◌, ◌||◌, List, [], ◌∷◌,
  Option, none, some, ltb, ◌==◌, if◌then◌else◌, byte_at,
}
use a2kit.Game.Std.{cut}
use a2kit.Game.Reader.{Read, pure, ◌>>=◌, ◌>>◌, fail_if, end, skip, peek, u8, u16, u32, u64, name}
use a2kit.Game.Events.{Event, Server, Character}
use a2kit.Game.Parse.Combat.{is_empty}
use a2kit.Game.Parse.World.{unix_milli}

-- groupBits: the two bits of entry i of n in its group's mask, and the mask after it
unfoldable pub group_bits : ℕ → ℕ → ℕ → Read (ℕ × ℕ)
group_bits i n mask =
    if i % 4 == 0
    then (do m ← u8; fail_if (ltb (n - i) 4 && not (m / 2 ^ (2 * (n - i)) == 0)); pure (m % 4, m))
    else pure (mask / 2 ^ (2 * (i % 4)) % 4, mask)

-- bytes.HasSuffix(r.peek(4), {0x50, 0x01, 0x00})
has_load : Option (List ℕ) → Bool
has_load none = false
has_load (some b) = byte_at b 1 == 0x50 && byte_at b 2 == 0x01 && byte_at b 3 == 0

-- The first entry decides for the whole list.
load_at : ℕ → Bool → Read Bool
unfolding has_load
load_at i load = if i == 0 then (peek 4 >>= λ b. pure (has_load b)) else pure load

abbrev Capacity : Type 0
Capacity = ℕ × ℕ × ℕ

-- Load, or Capacity and Players in its place
capacity_of : Bool → Read Capacity
capacity_of true = u8 >>= λ load. pure (load, 0, 0)
capacity_of false = u16 >>= λ capacity. u32 >>= λ players. pure (0, capacity, players)

-- entry i of n, with the group's mask and whether the list carries a Load
server : ℕ → ℕ → ℕ → Bool → Read (Server × ℕ × Bool)
unfolding group_bits load_at capacity_of
server i n mask load = do
  id ← u16
  faction ← u8
  again ← u16
  if not (again == id) then fail_if true else (do z ← u16; fail_if (not (z == 0)))
  who ← name
  (bits, mask') ← group_bits i n mask
  status ← u8
  load' ← load_at i load
  (l, capacity, players) ← capacity_of load'
  skip 3
  let v : Server = record {
    id = id;
    name = who;
    faction = faction;
    mask = bits;
    status = status;
    players = players;
    capacity = capacity;
    load = l;
  }
  pure (v, mask', load')

-- for i := range s.List, with the rounds left first
server_list : ℕ → ℕ → ℕ → ℕ → Bool → Read (List Server)
unfolding server
server_list zero i n mask load = pure []
server_list (suc k) i n mask load =
    server i n mask load >>= λ t. server_list k (i + 1) n t.1 t.2 >>= λ rest. pure (t.0 ∷ rest)

unfoldable pub servers : Read (Option Event)
unfolding server_list
servers = do
  z ← u16
  fail_if (not (z == 0))
  n ← u8
  list ← server_list n 0 n 0 false
  ones ← u16
  fail_if (not (ones == 0x101))
  end
  pure (some (Event.servers list))

unfoldable pub redirect : Read (Option Event)
redirect = do
  z ← u16
  fail_if (not (z == 0))
  id ← u16
  host ← name
  port ← u16
  fail_if (is_empty host)
  end
  pure (some (Event.redirect (record { server = id; host = host; port = port })))

unfoldable pub account : Read (Option Event)
account = do
  z ← u16
  if not (z == 0) then fail_if true else (do y ← u8; fail_if (not (y == 0)))
  first ← name
  skip 3
  both ← name
  let (id, second, found) = cut b':' both
  fail_if (not found)
  server ← u16
  skip 5
  again ← u16
  fail_if (not (again == server))
  skip 3
  end
  pure (some (Event.account (record { id = id; server = server; session = (first, second) })))

control_first : List ℕ → Bool
control_first [] = false
control_first (b ∷ s) = ltb b 0x20

-- entry i of n, with the group's mask
entry : ℕ → ℕ → ℕ → Read (Character × ℕ)
unfolding group_bits control_first
entry i n mask = do
  server ← u16
  who ← name
  level ← u32
  exp ← u32
  z ← u32
  fail_if (not (z == 0) || server == 0 || control_first who)
  code ← u32
  flags ← u8
  time ← u64
  skip 8
  (bits, mask') ← group_bits i n mask
  let ch : Character = record {
    server = server;
    name = who;
    level = level;
    exp = exp;
    code = code;
    flags = flags;
    mask = bits;
    time = unix_milli time;
  }
  pure (ch, mask')

entry_list : ℕ → ℕ → ℕ → ℕ → Read (List Character)
unfolding entry
entry_list zero i n mask = pure []
entry_list (suc k) i n mask =
    entry i n mask >>= λ t. entry_list k (i + 1) n t.1 >>= λ rest. pure (t.0 ∷ rest)

unfoldable pub characters : Read (Option Event)
unfolding entry_list
characters = do
  z ← u16
  fail_if (not (z == 0))
  n ← u8
  list ← entry_list n 0 n 0
  ones ← u16
  fail_if (not (ones == 0x101))
  end
  pure (some (Event.characters list))

unfoldable pub lobby_ping : Read (Option Event)
lobby_ping = do
  z ← u16
  fail_if (not (z == 0))
  client ← u64
  ms ← u64
  end
  pure (some (Event.lobby_ping (record { client = client; server = unix_milli ms })))
