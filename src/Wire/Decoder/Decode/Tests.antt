-- ===== src/Wire/Decoder/Decode/Tests.antt =====
-- Runs of the whole decoder on small inputs.
use a2kit.Common.{ℕ, ◌≡◌, refl, false, true, List, [], ◌∷◌, Option, none, some, arith, take}
use a2kit.Wire.Frame.{AddrPort, Frame, Segment}
use a2kit.Wire.Framer.State.{new_framer}
use a2kit.Wire.Decoder.State.{Config, Decoder, Stream, same_key, new_decoder}
use a2kit.Wire.Decoder.Table.Streams.{AllHeld}
use a2kit.Wire.Decoder.Feed.{feed_segment, feed, flush}
use a2kit.Wire.Decoder.Feed.Streamed.{IsSafe}
use a2kit.Wire.Decoder.Feed.Total.{feed-IsSafe}
use a2kit.Wire.Decoder.Table.Orderly.{with_key}
use a2kit.Wire.Decoder.Decode.{decode}
use a2kit.Wire.Decoder.Decode.Total.{decode-returns}

-- A stand-in for the decompressor: a block is its own plaintext.
abbrev stored : List ℕ → ℕ → Option (List ℕ)
stored block n = some (take n block)

abbrev server : AddrPort
server = record { bits = 32; addr = 1; port = 7777 }

abbrev client : AddrPort
client = record { bits = 32; addr = 2; port = 50000 }

abbrev plain_config : Config
plain_config = record {
  emit_client = false;
  emit_unlocked = false;
  known_only = false;
  parse_tls = false;
  lock_idle = 0;
}

-- A stream that waits for the bytes from 100 to 109, and holds three from 110 on
abbrev waiting : Stream
waiting = record {
  key = record { src = server; dst = client; if_index = 0 };
  dir = 0;
  last = 5;
  at = 5;
  closed = none;
  fr = new_framer false;
  born = 0;
  frames = 0;
  synced = true;
  next = 100;
  syn = 0;
  held_bytes = 3;
  held = record { seq = 110; t = 5; bytes = 7 ∷ 8 ∷ 9 ∷ [] } ∷ [];
  early = [];
  early_bytes = 0;
}

abbrev decoder : Decoder
decoder = record (new_decoder plain_config) { streams = waiting ∷ []; born = 1; held = 1 }

decoder-IsSafe : IsSafe decoder
unfolding with_key same_key
decoder-IsSafe = (
  (
    record {
      quiet = record { at_rest = λ h. refl; no_head = λ h. refl; not_lost = λ h. refl };
      few = omega arith;
      counted = refl;
      room = omega arith;
    },
    tt,
  ),
  record { once = λ j. ground arith; anchor = waiting.key; fits = ((refl, refl), tt); at = tt },
)

feed-IsSafe_example :
    ((s : Segment) → (e : Decoder) × (feed_segment stored s decoder ≡ some e) × IsSafe e)
    × ((t : ℕ) (src dst : AddrPort) (p : List ℕ)
        → (e : Decoder) × (feed stored t src dst p decoder ≡ some e) × IsSafe e)
    × ((e : Decoder) × (flush stored decoder ≡ some e) × IsSafe e)
feed-IsSafe_example = feed-IsSafe stored decoder decoder-IsSafe

-- A segment that is early, the one before it, and a copy of the first
abbrev segment_at : ℕ → List ℕ → Segment
segment_at seq p = record {
  time = 6;
  src = server;
  dst = client;
  flags = 16;
  if_index = 0;
  seq = seq;
  ack = 0;
  payload = p;
}

abbrev run : List Segment
run =
    segment_at 100 (3 ∷ [])
    ∷ segment_at 103 (9 ∷ [])
    ∷ segment_at 101 (1 ∷ 2 ∷ [])
    ∷ segment_at 103 (9 ∷ [])
    ∷ []

decode-returns_example :
    (fs : List Frame) × (d : Decoder) × (decode stored run (new_decoder plain_config)
      ≡ some (fs, d))
    × AllHeld d
decode-returns_example = decode-returns stored plain_config run
