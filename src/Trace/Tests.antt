-- ===== src/Trace/Tests.antt =====
-- A run of the trace on a small input.
use a2kit.Common.{ℕ, ◌≡◌, refl, Bool, true, false, List, [], ◌∷◌, ℤ, pos, negsuc, ◌==◌, ◌&&◌}
use a2kit.Wire.Frame.{AddrPort}
use a2kit.Game.Events.{Event, cast, cast_end}
use a2kit.Game.Parse.{event}
use a2kit.Messages.{Message}
use a2kit.Trace.Entry.{Args}
use a2kit.Trace.Step.Waiting.{casts_in}
use a2kit.Trace.Add.Kept.{cast_messages}
use a2kit.Trace.Finish.{write_trace}
use a2kit.Trace.Finish.Once.{casts_in-write_trace}

abbrev here : AddrPort
here = record { bits = 32; addr = 1; port = 7777 }

abbrev message : ℕ → Event → Message
message time e = record {
  frame = record {
    time = time;
    src = here;
    dst = here;
    opcode = 0x3642;
    flags = 1;
    if_index = 0;
    payload = [];
  };
  read = event e;
}

abbrev cast_by : ℕ → Event
cast_by actor = cast record {
  actor = actor;
  target = 9;
  skill = 5;
  pos = record { x = 0; y = 0; z = 0 };
  count = 0;
  tail = 0;
}

-- A cast twice, its end, and a cast by another that never ends
abbrev messages : List Message
messages =
    message 1000 (cast_by 3)
    ∷ message 2000 (cast_by 3)
    ∷ message 9000 (cast_end record { actor = 3; skill = 5 })
    ∷ message 9500 (cast_by 4)
    ∷ []

abbrev always : Event → Bool
always e = true

-- The casts of actor 3 at its second time
abbrev second_time : ℕ → ℤ → Args → Bool
second_time actor (pos n) args = actor == 3 && n == 1
second_time actor (negsuc n) args = false

one_cast : cast_messages second_time always messages ≡ 1
unfolding cast_messages
one_cast = refl

casts_in-write_trace_example :
    casts_in second_time (write_trace always messages) ≡ cast_messages second_time always messages
casts_in-write_trace_example = casts_in-write_trace second_time always messages
