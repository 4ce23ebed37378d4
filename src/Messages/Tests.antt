-- ===== src/Messages/Tests.antt =====
-- Runs of the messages on small inputs.
use a2kit.Common.{ℕ, ◌+◌, ◌≡◌, List, [], ◌∷◌, length, map}
use a2kit.Wire.Frame.{AddrPort, Frame}
use a2kit.Messages.{Message, no_summary, messages, decoded, failed}
use a2kit.Messages.Counted.{count_if, messages-Summary}

abbrev here : AddrPort
here = record { bits = 32; addr = 1; port = 7777 }

abbrev frame : ℕ → List ℕ → Frame
frame opcode payload = record {
  time = 5;
  src = here;
  dst = here;
  opcode = opcode;
  flags = 1;
  if_index = 0;
  payload = payload;
}

-- A frame that is read, one that does not fit, and one that is not read
abbrev frames : List Frame
frames = frame 0x3642 (1 ∷ 0 ∷ []) ∷ frame 0x3642 [] ∷ frame 0x3611 [] ∷ []

messages-Summary_example :
    (map (λ (m : Message). m.frame) (messages frames no_summary).0 ≡ frames)
    × ((messages frames no_summary).1.messages ≡ length (messages frames no_summary).0)
    × ((messages frames no_summary).1.decoded_n ≡ count_if decoded (messages frames no_summary).0)
    × ((messages frames no_summary).1.failed_n ≡ count_if failed (messages frames no_summary).0)
    × ((messages frames no_summary).1.decoded_n
          + (messages frames no_summary).1.unread_n
          + (messages frames no_summary).1.failed_n
        ≡ (messages frames no_summary).1.messages)
messages-Summary_example = messages-Summary frames
