-- ===== src/Messages.antt =====
-- message.go and a2kit.go: the messages of a recording, and what they add up to.
pub mod Counted
mod Tests
use a2kit.Common.{
  ℕ, ◌+◌, Bool, true, false, not, ◌&&◌, List, [], ◌∷◌, Option, none, some, bit_at, if◌then◌else◌,
}
use a2kit.Common.Results.{◌>>=◌}
use a2kit.Wire.Frame.{Frame, Segment}
use a2kit.Wire.Decoder.State.{Config, Decoder, Stats, new_decoder}
use a2kit.Wire.Decoder.Decode.{decode, stats}
use a2kit.Game.Parse.{Parsed, event, unread, layout, parse}

-- Message: its fields Event and Err are what Parse returned.
pub record Message : Type 0 where
  pub frame : Frame
  pub read : Parsed

-- Failed
unfoldable pub failed : Message → Bool
failed m = elim m.read [ event e ↦ false | unread ↦ false | layout at n ↦ true ]

-- m.Err == nil
unfoldable pub decoded : Message → Bool
decoded m = elim m.read [ event e ↦ true | unread ↦ false | layout at n ↦ false ]

-- Summary, less Stats, CutShort and Lost, which are others' to say
pub record Summary : Type 0 where
  pub messages : ℕ
  pub decoded_n : ℕ
  pub unread_n : ℕ
  pub failed_n : ℕ

abbrev pub no_summary : Summary
no_summary = record { messages = 0; decoded_n = 0; unread_n = 0; failed_n = 0 }

abbrev pub message_of : Frame → Message
message_of f = record { frame = f; read = parse f }

-- The counts of one message
unfoldable pub add : Message → Summary → Summary
unfolding failed decoded
add m s =
    let s' = record s { messages = s.messages + 1 } in
    if decoded m
    then record s' { decoded_n = s.decoded_n + 1 }
    else if failed m
    then record s' { failed_n = s.failed_n + 1 }
    else record s' { unread_n = s.unread_n + 1 }

-- Messages, taken to its end
unfoldable pub messages : List Frame → Summary → List Message × Summary
unfolding add parse
messages [] sum = ([], sum)
messages (f ∷ fs) sum =
    let m = message_of f in let (ms, end) = messages fs (add m sum) in (m ∷ ms, end)

-- logged, which keeps the client's frames only if they are asked for
unfoldable pub logged : Bool → List Frame → List Frame
logged client [] = []
logged client (f ∷ fs) =
    let rest = logged client fs in if bit_at f.flags 1 && not client then rest else f ∷ rest

-- Config.decoder: only the client's frames are asked for.
abbrev pub config_of : Bool → Config
config_of client = record {
  emit_client = client;
  emit_unlocked = false;
  known_only = false;
  parse_tls = false;
  lock_idle = 0;
}

abbrev pub decoder : Bool → Decoder
decoder client = new_decoder (config_of client)

-- New and Messages, on a source of segments; with the decoder's Stats, they are Summary's.
unfoldable pub read_all :
    (List ℕ → ℕ → Option (List ℕ))
    → Bool
    → List Segment
    → Option (List Message × Summary × (Bool × Stats))
unfolding decode messages stats
read_all uncompress client ss = decode uncompress ss (decoder client) >>= λ (fs, d).
    let (ms, sum) = messages fs no_summary in some (ms, sum, stats d)
