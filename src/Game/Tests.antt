-- ===== src/Game/Tests.antt =====
-- Runs of the game package on small payloads.
use a2kit.Common.{◌≤◌, ◌≡◌, refl, true, false, some, [], ◌∷◌, arith, length}
use a2kit.Wire.Frame.{Frame, AddrPort}
use a2kit.Game.Std.{uvarint}
use a2kit.Game.Reader.{Reader, ◌>>=◌, pure, end, varint}
use a2kit.Game.Parse.Combat.{fall}
use a2kit.Game.Parse.{op_of, opcodes, parse, layout}
use a2kit.Game.Events.{Event}
use a2kit.Game.Parse.Safe.{read_inside, read_after_failure, parse-layout}
use a2kit.Game.Parse.Exact.{read_exact}

abbrev nowhere : AddrPort
nowhere = record { bits = 32; addr = 0; port = 0 }

-- A fall whose payload has a byte too many
abbrev long_fall : Frame
long_fall = record {
  time = 0;
  src = nowhere;
  dst = nowhere;
  opcode = 0x3817;
  flags = 1;
  if_index = 0;
  payload = 5 ∷ 6 ∷ 7 ∷ [];
}

long_fall_fails : parse long_fall ≡ layout 2 3
unfolding parse opcodes fall ◌>>=◌ pure end varint uvarint
long_fall_fails = refl

abbrev half : Reader
half = record { p = 5 ∷ 6 ∷ 7 ∷ []; i = 1; bad = false }

abbrev failed : Reader
failed = record { p = 5 ∷ 6 ∷ 7 ∷ []; i = 1; bad = true }

fall_read : (op_of opcodes 0x3817).read ≡ some fall
unfolding op_of opcodes
fall_read = refl

read_inside_example :
    ((fall half).1.p ≡ 5 ∷ 6 ∷ 7 ∷ []) × (1 ≤ (fall half).1.i) × ((fall half).1.i ≤ 3)
read_inside_example = read_inside 0x3817 fall half fall_read (omega arith)

read_after_failure_example : ((fall failed).1.bad ≡ true) × ((fall failed).1.i ≡ 1)
read_after_failure_example = read_after_failure 0x3817 fall failed fall_read refl (omega arith)

abbrev fallen : Event
fallen = Event.fall (record { entity = 5; damage = 6 })

abbrev short_fall : Reader
short_fall = record { p = 5 ∷ 6 ∷ []; i = 0; bad = false }

fall_reads : (fall short_fall).0 ≡ some fallen
unfolding fall ◌>>=◌ pure end varint uvarint
fall_reads = refl

fall_accepts : (fall short_fall).1.bad ≡ false
unfolding fall ◌>>=◌ pure end varint uvarint
fall_accepts = refl

read_exact_example : (fall short_fall).1.i ≡ length (fall short_fall).1.p
read_exact_example = read_exact 0x3817 fall short_fall fallen refl fall_read fall_reads fall_accepts

parse-layout_example : (3 ≡ length long_fall.payload) × (2 ≤ 3)
parse-layout_example = parse-layout long_fall 2 3 long_fall_fails
