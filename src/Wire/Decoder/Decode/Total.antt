-- ===== src/Wire/Decoder/Decode/Total.antt =====
-- wire/decoder.go: Decode, which comes to the end of its reader.
use a2kit.Common.{ℕ, List, [], ◌∷◌, Option, none, some, ◌≡◌, refl, arith}
use a2kit.Common.Results.{◌>>=◌}
use a2kit.Wire.Frame.{AddrPort, Frame, Segment}
use a2kit.Wire.Decoder.State.{Key, Config, Decoder, new_decoder}
use a2kit.Wire.Decoder.Table.Orderly.{with_key}
use a2kit.Wire.Decoder.Table.Streams.{AllHeld}
use a2kit.Wire.Decoder.Feed.{frames, feed_segment, flush}
use a2kit.Wire.Decoder.Feed.Streamed.{IsSafe, Fed}
use a2kit.Wire.Decoder.Feed.Total.{feed_segment-Fed, flush-Fed}
use a2kit.Wire.Decoder.Decode.{ahead, segments_from, decode}

-- A run that came to its end, with every stream within its limits
abbrev Ended : Option (List Frame × Decoder) → Type 0
Ended none = ⊥
Ended (some r) = IsSafe r.1

ahead-Ended :
    (fs : List Frame) (o : Option (List Frame × Decoder))
    → Ended o
    → Ended (o >>= λ r. some (ahead fs r))
unfolding ahead
ahead-Ended fs none h = h
ahead-Ended fs (some (gs, d)) h = h

bind-Ended :
    (o : Option Decoder) (k : Decoder → Option (List Frame × Decoder))
    → Fed (λ x. Unit) o
    → ((d : Decoder) → IsSafe d → Ended (k d))
    → Ended (o >>= k)
bind-Ended none k h g = h
bind-Ended (some d) k h g = g d h.0

pub new-IsSafe : (config : Config) → IsSafe (new_decoder config)
unfolding with_key
new-IsSafe config = (tt, record { once = λ j. omega arith; anchor = none_yet; fits = tt; at = tt })
  where
    none_yet : Key
    none_yet =
        let nobody : AddrPort = record { bits = 0; addr = 0; port = 0 } in
        record { src = nobody; dst = nobody; if_index = 0 }

module _ (uncompress : List ℕ → ℕ → Option (List ℕ)) where
  segments_from-Ended :
      (ss : List Segment) (d : Decoder) → IsSafe d → Ended (segments_from uncompress ss d)
  unfolding segments_from frames
  segments_from-Ended [] d h = bind-Ended (flush uncompress d) _ (flush-Fed uncompress d h) λ e g. g
  segments_from-Ended (s ∷ ss) d h =
      bind-Ended (feed_segment uncompress s d) _ (feed_segment-Fed uncompress s d h)
        λ e g. ahead-Ended e.queue _ (segments_from-Ended ss (record e { queue = [] }) g)

  decode-Ended : (ss : List Segment) (d : Decoder) → IsSafe d → Ended (decode uncompress ss d)
  unfolding decode frames
  decode-Ended ss d h = ahead-Ended d.queue _ (segments_from-Ended ss (record d { queue = [] }) h)

  -- Decode comes to the end of every reader: from a new decoder of any configuration, it returns
  -- for every list of segments, however they overlap, come late, or break the layout of frames, and
  -- whatever the decompressor answers, without a panic where it makes room for a
  -- stream, and it leaves every stream within its limits.
  pub decode-returns :
      (config : Config) (ss : List Segment)
      → (fs : List Frame) × (d : Decoder) × (decode uncompress ss (new_decoder config)
          ≡ some (fs, d))
        × AllHeld d
  decode-returns config ss =
      ended (decode uncompress ss (new_decoder config))
        (decode-Ended ss (new_decoder config) (new-IsSafe config))
    where
      ended :
          (o : Option (List Frame × Decoder))
          → Ended o
          → (fs : List Frame) × (d : Decoder) × (o ≡ some (fs, d)) × AllHeld d
      ended none h = absurd h
      ended (some (fs, d)) h = (fs, d, refl, h.0)
