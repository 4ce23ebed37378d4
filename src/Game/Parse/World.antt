-- ===== src/Game/Parse/World.antt =====
-- game/parse.go: the clocks, what enters view, and movement.
pub mod Safe
use a2kit.Common.{
  ℕ, Bool, true, false, not, ◌&&◌, ◌||◌, [], Option, none, some, ltb, ◌==◌, if◌then◌else◌, bit_at,
  and_not, ℤ, signed64,
}
use a2kit.Game.Reader.{
  Read, pure, ◌>>=◌, ◌>>◌, fail_if, end, skip, u8, u16, u32, u64, varint, name, pos,
}
use a2kit.Game.Events.{Event}
use a2kit.Game.Parse.Combat.{when}

-- unixMilli(int64(ms)), as milliseconds
abbrev pub unix_milli : ℕ → ℤ
unix_milli ms = signed64 ms

unfoldable pub spawn : Read (Option Event)
spawn = do
  entity ← varint
  mask ← u16
  owned ← varint
  if ltb 1 owned then pure none else (do
    owner ← when (owned == 1) [] name
    npc ← u32
    flags ← u8
    two ← u8
    fail_if (not (two == 2))
    at ← pos
    heading ← u32
    skip 2
    when (bit_at flags 3) tt (skip 12)
    alive ← u8
    hp ← varint
    max_hp ← varint
    fail_if (ltb 1 alive || alive == 0 && not (hp == 0))
    pure (
        some (
          Event.spawn (record {
            entity = entity;
            owner = owner;
            npc = npc;
            mask = mask;
            heading = heading;
            hp = hp;
            max_hp = max_hp;
            pos = at;
          }))))

unfoldable pub object : Read (Option Event)
object = do
  entity ← varint
  mask ← u16
  type ← u32
  at ← pos
  if not (and_not mask 0xD == 0) then pure none else (do
    skip 4
    heading ← u32
    ones ← u16
    fail_if (not (ones == 0x101))
    state ← u8
    since ← u64
    when (bit_at mask 0) tt (skip 4)
    skip 14
    when (bit_at mask 3) tt (skip 4)
    z ← u8
    fail_if (not (z == 0))
    end
    pure (
        some (
          Event.object (record {
            entity = entity;
            mask = mask;
            type = type;
            state = state;
            heading = heading;
            since = unix_milli since;
            pos = at;
          }))))

character : Bool → Read (Option Event)
character self = do
  entity ← varint
  skip 4
  named ← u8
  who ← when (bit_at named 0) [] name
  pure (some (Event.player (record { entity = entity; name = who; self = self })))

unfoldable pub player : Read (Option Event)
unfolding character
player = character false

unfoldable pub self : Read (Option Event)
unfolding character
self = character true

unfoldable pub move_a : Read (Option Event)
move_a = do
  entity ← varint
  skip 2
  at ← pos
  pure (some (Event.move (record { entity = entity; pos = at })))

unfoldable pub move_b : Read (Option Event)
move_b = do
  entity ← varint
  more ← u8
  when (bit_at more 0) tt (skip 1)
  at ← pos
  pure (some (Event.move (record { entity = entity; pos = at })))

unfoldable pub tick : Read (Option Event)
tick = do ms ← u64; end; pure (some (Event.tick (record { server = unix_milli ms })))

unfoldable pub ping : Read (Option Event)
ping = do
  skip 2
  client ← u64
  ms ← u64
  end
  pure (some (Event.ping (record { client = client; server = unix_milli ms })))

unfoldable pub zone : Read (Option Event)
zone = do z ← varint; fail_if (not (z == 0)); skip 5; at ← pos; pure (some (Event.zone at))

unfoldable pub name_check : Read (Option Event)
name_check = do
  code ← u16
  who ← name
  one ← u8
  fail_if (not (one == 1))
  end
  pure (some (Event.name_check (record { name = who; taken = not (code == 0); code = code })))
