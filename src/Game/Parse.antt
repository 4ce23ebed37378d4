-- ===== src/Game/Parse.antt =====
-- game/parse.go and game/opcode.go: the table of opcodes, and what reads a frame by it.
pub mod Combat
pub mod Safe
pub mod Exact
pub mod World
pub mod Tables
pub mod Lobby
use Prim.Native.String.{String}
use a2kit.Common.{
  ℕ, Bool, true, false, List, [], ◌∷◌, Option, none, some, ◌==◌, if◌then◌else◌, length, bit_at,
}
use a2kit.Wire.Frame.{Frame}
use a2kit.Game.Reader.{Read, Reader}
use a2kit.Game.Events.{Event}
use Combat.{hit, death, fall, kill, cast, cast_end}
use World.{spawn, object, player, self, move_a, move_b, tick, ping, zone, name_check}
use Tables.{sheet, sheet_update, gauges, gear_score, combat_power}
use Lobby.{servers, redirect, account, characters, lobby_ping}

-- op: a name, and the function that reads it, or none for one seen but not read
pub record Op : Type 0 where
  pub name : String
  pub read : Option (Read (Option Event))

abbrev pub seen : String → Op
seen s = record { name = s; read = none }

abbrev reads : String → Read (Option Event) → Op
reads s m = record { name = s; read = some m }

unfoldable pub opcodes : List (ℕ × Op)
opcodes =
    (0x3600, reads "Tick" tick)
    ∷ (0x3603, reads "Ping" ping)
    ∷ (0x3611, seen "Handshake")
    ∷ (0x3615, seen "Login")
    ∷ (0x361A, reads "NameCheck" name_check)
    ∷ (0x3623, reads "Zone" zone)
    ∷ (0x3633, reads "Self" self)
    ∷ (0x3634, reads "Object" object)
    ∷ (0x3635, seen "ObjectState")
    ∷ (0x3641, reads "Spawn" spawn)
    ∷ (0x3642, reads "Death" death)
    ∷ (0x3645, reads "Player" player)
    ∷ (0x3649, reads "Stats" sheet)
    ∷ (0x364A, reads "StatsUpdate" sheet_update)
    ∷ (0x3901, seen "LobbyHandshake")
    ∷ (0x3903, reads "LobbyPing" lobby_ping)
    ∷ (0x3906, reads "Account" account)
    ∷ (0x3909, reads "Servers" servers)
    ∷ (0x390B, reads "Characters" characters)
    ∷ (0x390D, seen "Join")
    ∷ (0x390F, reads "Redirect" redirect)
    ∷ (0x371A, reads "Move" move_a)
    ∷ (0x371B, reads "Move" move_b)
    ∷ (0x371C, reads "Move" move_b)
    ∷ (0x371D, seen "Move")
    ∷ (0x3749, seen "Sit")
    ∷ (0x3802, reads "Cast" cast)
    ∷ (0x3804, reads "Hit" hit)
    ∷ (0x3805, seen "DoT")
    ∷ (0x3806, reads "CastEnd" cast_end)
    ∷ (0x3817, reads "Fall" fall)
    ∷ (0x561D, reads "GearScore" gear_score)
    ∷ (0x561E, seen "Loot")
    ∷ (0x561F, seen "Looted")
    ∷ (0x3656, reads "CombatPower" combat_power)
    ∷ (0x8D00, reads "Gauges" gauges)
    ∷ (0x8D04, reads "Kill" kill)
    ∷ (0x8D2F, seen "Notice")
    ∷ (0x921B, seen "HP")
    ∷ (0x9702, seen "Party")
    ∷ []

-- opcodes[o], and the zero op where there is none
unfoldable pub op_of : List (ℕ × Op) → ℕ → Op
op_of [] o = seen ""
op_of ((k, v) ∷ m) o = if k == o then v else op_of m o

unfoldable pub name_of : ℕ → String
unfolding opcodes op_of
name_of o = (op_of opcodes o).name

unfoldable pub private_opcode : ℕ → Bool
private_opcode o = if o == 0x3615 then true else if o == 0x3906 then true else o == 0x390B

-- What Parse returns: an event, ErrUnread, or ErrLayout with the byte it stopped at and the length.
pub data Parsed : Type 0 where
  event : Event → Parsed
  unread : Parsed
  layout : ℕ → ℕ → Parsed

-- Parse, once a reader has run
unfoldable pub conclude : Option Event × Reader → Parsed
conclude (e, r) =
    if r.bad then layout r.i (length r.p) else elim e [ none ↦ unread | some v ↦ event v ]

unfoldable pub run_op : Option (Read (Option Event)) → List ℕ → Parsed
unfolding conclude
run_op none payload = unread
run_op (some m) payload = conclude (m (record { p = payload; i = 0; bad = false }))

unfoldable pub parse : Frame → Parsed
unfolding op_of run_op
parse f = if bit_at f.flags 1 then unread else run_op (op_of opcodes f.opcode).read f.payload
