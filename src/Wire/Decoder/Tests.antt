-- ===== src/Wire/Decoder/Tests.antt =====
-- Runs of the decoder's streams on small inputs.
use a2kit.Common.{
  ℕ, ◌≤◌, ◌≡◌, refl, false, true, List, [], ◌∷◌, ◌++◌, Option, none, some, arith, take, length,
}
use a2kit.Wire.Frame.{AddrPort, Frame}
use a2kit.Wire.Framer.State.{new_framer}
use a2kit.Wire.Decoder.State.{Stream, new_decoder, max_early, max_early_bytes, wait}
use a2kit.Wire.Decoder.Table.{Focus}
use a2kit.Wire.Decoder.Early.{payloads, wait-keeps}
use a2kit.Wire.Decoder.Reassembly.{place}
use a2kit.Wire.Decoder.Reassembly.Held.{IsHeld}
use a2kit.Wire.Decoder.Reassembly.Place.{place-returns}

-- A stand-in for the decompressor: a block is its own plaintext.
abbrev stored : List ℕ → ℕ → Option (List ℕ)
stored block n = some (take n block)

abbrev here : AddrPort
here = record { bits = 32; addr = 1; port = 7777 }

abbrev there : AddrPort
there = record { bits = 32; addr = 2; port = 50000 }

abbrev early_frame : Frame
early_frame = record {
  time = 1;
  src = here;
  dst = there;
  opcode = 0x3600;
  flags = 0;
  if_index = 0;
  payload = 1 ∷ 2 ∷ 3 ∷ [];
}

-- A stream that waits for the bytes from 100 to 109, and holds three from 110 on
abbrev waiting : Stream
waiting = record {
  key = record { src = here; dst = there; if_index = 0 };
  dir = 0;
  last = 5;
  at = 5;
  closed = none;
  fr = new_framer false;
  born = 0;
  frames = 0;
  synced = true;
  next = 100;
  syn = 0;
  held_bytes = 3;
  held = record { seq = 110; t = 5; bytes = 7 ∷ 8 ∷ 9 ∷ [] } ∷ [];
  early = early_frame ∷ [];
  early_bytes = 3;
}

abbrev focus : Focus
focus = record {
  st = waiting;
  d = new_decoder (record {
    emit_client = false;
    emit_unlocked = false;
    known_only = false;
    parse_tls = false;
    lock_idle = 0;
  });
}

waiting-IsHeld : IsHeld waiting
waiting-IsHeld = record {
  quiet = ground arith;
  few = omega arith;
  counted = refl;
  room = omega arith;
}

place-returns_example : (g : Focus) × (place stored 105 (1 ∷ 2 ∷ []) 6 focus ≡ some g) × IsHeld g.st
place-returns_example = place-returns stored 105 (1 ∷ 2 ∷ []) 6 focus waiting-IsHeld

wait-keeps_example :
    (length (wait early_frame waiting).early ≤ max_early)
    × ((wait early_frame waiting).early_bytes ≤ max_early_bytes)
    × ((wait early_frame waiting).early_bytes ≡ payloads (wait early_frame waiting).early)
    × ((gone : List Frame) × (waiting.early ++ (early_frame ∷ [])
          ≡ gone ++ (wait early_frame waiting).early))
wait-keeps_example = wait-keeps early_frame waiting refl
