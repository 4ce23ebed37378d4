-- ===== src/Game/Events.antt =====
-- The events of the package game: types.go, clock.go, combat.go, world.go, stats.go, gauge.go and
-- lobby.go. Names are lists of bytes, times are milliseconds since 1970, a float32 is its bit
-- pattern, and a map is the list of its writes, the newest first.
use a2kit.Common.{ℕ, List, ℤ, Bool}
use a2kit.Game.Reader.{Pos}

pub record Tick : Type 0 where
  pub server : ℤ

pub record Ping : Type 0 where
  pub client : ℕ
  pub server : ℤ

pub record Hit : Type 0 where
  pub actor : ℕ
  pub target : ℕ
  pub skill : ℕ
  pub effect : ℕ
  pub damage : ℕ
  pub extra : List ℕ
  pub type : ℕ
  pub speed : ℕ
  pub mods : ℕ
  pub direction : ℕ
  pub form : ℕ
  pub tail : ℕ
  pub effects : List ℕ
  pub buffs : List ℕ

pub record Cast : Type 0 where
  pub actor : ℕ
  pub target : ℕ
  pub skill : ℕ
  pub pos : Pos
  pub count : ℕ
  pub tail : ℕ

pub record CastEnd : Type 0 where
  pub actor : ℕ
  pub skill : ℕ

pub record Kill : Type 0 where
  pub entity : ℕ
  pub actor : ℕ
  pub skill : ℕ
  pub server : ℕ
  pub name : List ℕ
  pub legion : List ℕ
  pub npc : ℕ

pub record Death : Type 0 where
  pub entity : ℕ
  pub flag : ℕ

pub record Fall : Type 0 where
  pub entity : ℕ
  pub damage : ℕ

pub record Spawn : Type 0 where
  pub entity : ℕ
  pub owner : List ℕ
  pub npc : ℕ
  pub mask : ℕ
  pub heading : ℕ
  pub hp : ℕ
  pub max_hp : ℕ
  pub pos : Pos

pub record Object : Type 0 where
  pub entity : ℕ
  pub mask : ℕ
  pub type : ℕ
  pub state : ℕ
  pub heading : ℕ
  pub since : ℤ
  pub pos : Pos

pub record Player : Type 0 where
  pub entity : ℕ
  pub name : List ℕ
  pub self : Bool

pub record Move : Type 0 where
  pub entity : ℕ
  pub pos : Pos

pub record NameCheck : Type 0 where
  pub name : List ℕ
  pub taken : Bool
  pub code : ℕ

pub record Stats : Type 0 where
  pub entity : ℕ
  pub full : Bool
  pub rows : List (ℕ × ℤ)

pub record GearScore : Type 0 where
  pub now : ℕ
  pub best : ℕ

pub record CombatPower : Type 0 where
  pub now : ℕ
  pub best : ℕ

pub record Gauges : Type 0 where
  pub entity : ℕ
  pub rows : List (ℕ × ℕ)

pub record Server : Type 0 where
  pub id : ℕ
  pub name : List ℕ
  pub faction : ℕ
  pub mask : ℕ
  pub status : ℕ
  pub players : ℕ
  pub capacity : ℕ
  pub load : ℕ

pub record LobbyPing : Type 0 where
  pub client : ℕ
  pub server : ℤ

pub record Redirect : Type 0 where
  pub server : ℕ
  pub host : List ℕ
  pub port : ℕ

pub record Account : Type 0 where
  pub id : List ℕ
  pub server : ℕ
  pub session : List ℕ × List ℕ

pub record Character : Type 0 where
  pub server : ℕ
  pub name : List ℕ
  pub level : ℕ
  pub exp : ℕ
  pub code : ℕ
  pub flags : ℕ
  pub mask : ℕ
  pub time : ℤ

-- The types that implement Event.
pub data Event : Type 0 where
  tick : Tick → Event
  ping : Ping → Event
  hit : Hit → Event
  cast : Cast → Event
  cast_end : CastEnd → Event
  kill : Kill → Event
  death : Death → Event
  fall : Fall → Event
  spawn : Spawn → Event
  object : Object → Event
  player : Player → Event
  move : Move → Event
  zone : Pos → Event
  name_check : NameCheck → Event
  stats : Stats → Event
  gear_score : GearScore → Event
  combat_power : CombatPower → Event
  gauges : Gauges → Event
  servers : List Server → Event
  lobby_ping : LobbyPing → Event
  redirect : Redirect → Event
  account : Account → Event
  characters : List Character → Event
