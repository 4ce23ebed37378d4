-- ===== src/Wire/Decoder/Feed.antt =====
-- wire/decoder.go: Feed, FeedSegment, Frames and Flush.
pub mod Streamed
pub mod Total
use a2kit.Common.{
  ℕ, ◌+◌, Bool, true, false, not, ◌&&◌, ◌||◌, List, [], ◌∷◌, Option, none, some, ltb, ◌==◌,
  if◌then◌else◌, length, add32, bit_at, map,
}
use a2kit.Common.Results.{◌>>=◌}
use a2kit.Wire.Frame.{AddrPort, Frame, Segment, fin_bit, syn_bit, rst_bit, ack_bit}
use a2kit.Wire.Framer.Write.{end}
use a2kit.Wire.Decoder.State.{Key, reverse, Stream, Decoder, is_set}
use a2kit.Wire.Decoder.Table.{Focus, lookup, remove, drop, store, stream, admit}
use a2kit.Wire.Decoder.Lock.{let_go}
use a2kit.Wire.Decoder.Reassembly.{take, place, acked, framed, skip_pieces}

-- Frames, taken to its end
unfoldable pub frames : Decoder → List Frame × Decoder
frames d = (d.queue, record d { queue = [] })

-- s.Flags&(FIN|RST) != 0
abbrev closes : Segment → Bool
closes s = bit_at s.flags fin_bit || bit_at s.flags rst_bit

abbrev key_of : Segment → Key
key_of s = record { src = s.src; dst = s.dst; if_index = s.if_index }

-- The sequence number of the segment's first byte
abbrev first_seq : Segment → ℕ
first_seq s = if bit_at s.flags syn_bit then add32 s.seq 1 else s.seq

-- A SYN's part: a stream made again for a new connection, and its number
pub again : Segment → Focus → Option Focus
unfolding stream drop
again s f =
    (if f.st.synced && not (first_seq s == f.st.syn)
      then stream (key_of s) s.time (drop (key_of s) (store f))
      else some f)
    >>= λ g. some (record g { st = record g.st { syn = first_seq s } })

-- The stream of a segment
pub opened : Segment → Decoder → Option Focus
unfolding stream again
opened s d =
    stream (key_of s) s.time d >>= λ f. if bit_at s.flags syn_bit then again s f else some f

-- The times that a segment sets
pub timed : Segment → Focus → Focus
timed s f =
    let g = record f { st = record f.st { last = s.time } } in
    if closes s
    then record {
      st = record g.st { closed = some s.time };
      d = if is_set g.st.closed then g.d else record g.d { closing = g.d.closing + 1 };
    }
    else g

pub synced_at : ℕ → Focus → Focus
synced_at seq f =
    if f.st.synced then f else record f { st = record f.st { synced = true; next = seq } }

-- FeedSegment's last step
pub closed_by : Segment → Bool → Focus → Focus
unfolding let_go
closed_by s seen f =
    if is_set f.d.srv && seen && closes s && f.st.next == add32 (first_seq s) (length s.payload)
    then let_go s.time f
    else f

module _ (uncompress : List ℕ → ℕ → Option (List ℕ)) where
  -- Feed, of a payload that is not empty
  pub fed : ℕ → Key → List ℕ → Bool × Decoder → Option Decoder
  unfolding stream take
  fed t k payload (false, d) = some d
  fed t k payload (true, d) = stream k t d >>= λ f.
      take uncompress payload t (record f { st = record f.st { last = t } }) >>= λ g. some (store g)

  -- Feed
  unfoldable pub feed : ℕ → AddrPort → AddrPort → List ℕ → Decoder → Option Decoder
  unfolding admit fed
  feed t src dst payload d =
      let k : Key = record { src = src; dst = dst; if_index = 0 } in
      if length payload == 0 then some d else fed t k payload (admit k t d)

  -- FeedSegment, on its stream
  pub streamed : Segment → Focus → Option Decoder
  unfolding synced_at closed_by place
  streamed s f =
      let seen = f.st.synced in
      let g = synced_at (first_seq s) f in
      (if ltb 0 (length s.payload)
        then place uncompress (first_seq s) s.payload s.time g
        else some g)
      >>= λ h. some (store (closed_by s seen h))

  -- FeedSegment, from the stream on
  pub received : Segment → Decoder → Option Decoder
  unfolding opened timed streamed
  received s d = opened s d >>= λ f. streamed s (timed s f)

  pub acknowledged : Segment → Decoder → Option Decoder
  unfolding acked
  acknowledged s d =
      if bit_at s.flags ack_bit && ltb 0 d.held
      then acked uncompress (reverse (key_of s)) s.ack d
      else some d

  -- FeedSegment, once its key is admitted or not
  pub admitted : Segment → Bool × Decoder → Option Decoder
  unfolding acknowledged received
  admitted s (false, d) = some d
  admitted s (true, d) = acknowledged s d >>= λ e.
      if length s.payload == 0 && not (bit_at s.flags syn_bit || closes s)
      then some e
      else received s e

  unfoldable pub feed_segment : Segment → Decoder → Option Decoder
  unfolding admit admitted
  feed_segment s d = admitted s (admit (key_of s) s.time d)

  -- The keys of the streams, in the order of their numbers
  before : Stream → List Stream → List Stream
  before st [] = st ∷ []
  before st (o ∷ sts) =
      let rest = before st sts in if ltb o.born st.born then o ∷ rest else st ∷ o ∷ sts

  by_born : List Stream → List Stream
  unfolding before
  by_born [] = []
  by_born (st ∷ sts) = before st (by_born sts)

  -- A stream's part of Flush
  pub flush_stream : Focus → Option Decoder
  unfolding skip_pieces framed end
  flush_stream f = skip_pieces uncompress (λ held. true) f >>= λ g.
      end uncompress g.st.fr >>= framed uncompress g >>= λ h. some (store h)

  pub flush_loop : List Key → Decoder → Option Decoder
  unfolding lookup remove flush_stream
  flush_loop [] d = some d
  flush_loop (k ∷ ks) d =
      elim (lookup k d.streams) [
        | none ↦ some d
        | some st ↦ flush_stream (record { st = st; d = record d { streams = remove k d.streams } })
      ]
      >>= flush_loop ks

  cleared : List Stream → List Stream
  cleared [] = []
  cleared (st ∷ sts) = record st { early = []; early_bytes = 0 } ∷ cleared sts

  -- Flush
  unfoldable pub flush : Decoder → Option Decoder
  unfolding flush_loop by_born cleared
  flush d = flush_loop (map (λ st. st.key) (by_born d.streams)) d >>= λ e.
      some (record e { streams = cleared e.streams })
