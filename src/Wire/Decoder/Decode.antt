-- ===== src/Wire/Decoder/Decode.antt =====
-- wire/decoder.go: Decode and Stats. The reader is the segments that it gives before its error, which
-- may be io.EOF, and every frame is taken.
pub mod Total
mod Tests
use a2kit.Common.{ℕ, Bool, List, [], ◌∷◌, ◌++◌, Option, none, some}
use a2kit.Common.Results.{◌>>=◌}
use a2kit.Wire.Frame.{Frame, Segment}
use a2kit.Wire.Decoder.State.{Stream, Stats, Decoder, count, is_set}
use a2kit.Wire.Decoder.Feed.{frames, feed_segment, flush}

count_all : List Stream → Stats → Stats
unfolding count
count_all [] s = s
count_all (st ∷ sts) s = count_all sts (count st s)

-- Stats, with the field Locked beside it
unfoldable pub stats : Decoder → Bool × Stats
unfolding count_all
stats d = (is_set d.srv, count_all d.streams d.stats)

-- The frames of two parts of a run, and the decoder after both
ahead : List Frame → List Frame × Decoder → List Frame × Decoder
ahead fs (gs, d) = (fs ++ gs, d)

module _ (uncompress : List ℕ → ℕ → Option (List ℕ)) where
  -- Decode, once it has drained the queue
  segments_from : List Segment → Decoder → Option (List Frame × Decoder)
  unfolding feed_segment flush frames ahead
  segments_from [] d = flush uncompress d >>= λ e. some (frames e)
  segments_from (s ∷ ss) d = feed_segment uncompress s d >>= λ e.
      let (fs, e') = frames e in segments_from ss e' >>= λ r. some (ahead fs r)

  -- Decode
  unfoldable pub decode : List Segment → Decoder → Option (List Frame × Decoder)
  unfolding segments_from frames ahead
  decode ss d = let (fs, d') = frames d in segments_from ss d' >>= λ r. some (ahead fs r)
