-- ===== src/Wire/Decoder/Feed/Total.antt =====
-- wire/decoder.go: FeedSegment, Feed and Flush, on a decoder whose streams are within their limits.
use a2kit.Common.{
  ℕ, Bool, true, false, not, ◌&&◌, ◌||◌, List, [], ◌∷◌, Option, none, some, if_cases, ◌==◌,
  if◌then◌else◌, length, ltb, ◌≡◌, refl, map, All, arith, bit_at,
}
use a2kit.Common.Results.{◌>>=◌}
use a2kit.Wire.Frame.{AddrPort, Segment, syn_bit, ack_bit}
use a2kit.Wire.Decoder.State.{Key, reverse, Stream, Decoder}
use a2kit.Wire.Decoder.Table.{Focus, drop, store, stream, admit}
use a2kit.Wire.Decoder.Table.Streams.{AllHeld, drop-AllHeld, admit-AllHeld}
use a2kit.Wire.Decoder.Table.Orderly.{
  with_key, in_pair, in_pair-reverse, Fits, Shrunk-IsOrderly, drop-Shrunk, same_key_refl,
}
use a2kit.Wire.Decoder.Table.Room.{Admits, stream-Out, Admitted, admit-Admitted}
use a2kit.Wire.Decoder.Reassembly.{acked, skip_pieces, first_in}
use a2kit.Wire.Decoder.Reassembly.Held.{IsHeld}
use a2kit.Wire.Decoder.Feed.{
  closes, key_of, first_seq, again, opened, timed, fed, feed, received, acknowledged, admitted,
  feed_segment, by_born, flush_stream, flush_loop, cleared, flush,
}
use a2kit.Wire.Decoder.Feed.Streamed.{
  IsSafe, Fed, bind-IsSafe, Pair, Both, Out-Both, bind-Both, bind-Fed, store-IsSafe, on_stream-Fed,
  timed-Pair, streamed-Fed, taken-Fed, flush_stream-Fed, skipped-Fed,
}

in_pair_refl : (k : Key) → in_pair k k ≡ true
in_pair_refl k = rw (same_key_refl k) refl

-- The stream of a key that admit lets in
stream-Both :
    (k : Key) (t : ℕ) (d : Decoder)
    → IsSafe d
    → Admits k d.srv
    → Both k (Admits k) tt (in_pair_refl k) (stream k t d)
stream-Both k t d (h, o) a =
    Out-Both k (Admits k) tt (in_pair_refl k) (stream k t d)
      (stream-Out (Admits k) tt k (λ x r. r) t d o a h)

module _ (s : Segment) where
  abbrev Mine : Option Key → Type 0
  Mine srv = Admits (key_of s) srv

  abbrev MyPair : Focus → Type 0
  MyPair f = Pair (key_of s) (Admits (key_of s)) tt (in_pair_refl (key_of s)) f

  abbrev MyBoth : Option Focus → Type 0
  MyBoth o = Both (key_of s) (Admits (key_of s)) tt (in_pair_refl (key_of s)) o

  numbered : (f : Focus) → MyPair f → MyPair (record f { st = record f.st { syn = first_seq s } })
  numbered f (h, g) =
      (record { quiet = h.quiet; few = h.few; counted = h.counted; room = h.room }, g)

  again-Both : (f : Focus) → MyPair f → MyBoth (again s f)
  unfolding again
  again-Both f h =
      let k = key_of s in
      let ((held, o), r) = store-IsSafe k (Admits k) tt (in_pair_refl k) f h in
      let e = drop k (store f) in
      let shrunk = drop-Shrunk k (store f) in
      bind-Both k (Admits k) tt (in_pair_refl k)
        (if f.st.synced && not (first_seq s == f.st.syn) then stream k s.time e else some f) _
        (if_cases MyBoth (f.st.synced && not (first_seq s == f.st.syn)) _ (some f)
          (λ _.
            stream-Both k s.time e
              (drop-AllHeld k (store f) held, Shrunk-IsOrderly (store f) e shrunk o)
              (shrunk.lock (Admits k) tt r))
          λ _. h)
        numbered

  opened-Both : (d : Decoder) → IsSafe d → Mine d.srv → MyBoth (opened s d)
  unfolding opened
  opened-Both d h a =
      let k = key_of s in
      bind-Both k (Admits k) tt (in_pair_refl k) (stream k s.time d) _ (stream-Both k s.time d h a)
        λ f g.
          if_cases MyBoth (bit_at s.flags syn_bit) (again s f) (some f) (λ _. again-Both f g) λ _. g

module _ (uncompress : List ℕ → ℕ → Option (List ℕ)) where
  received-Fed :
      (s : Segment) (d : Decoder)
      → IsSafe d
      → Admits (key_of s) d.srv
      → Fed (Admits (key_of s)) (received uncompress s d)
  unfolding received
  received-Fed s d h a =
      let k = key_of s in
      let r = in_pair_refl k in
      bind-Fed k (Admits k) tt r (opened s d) _ (opened-Both s d h a) λ f g.
        streamed-Fed k (Admits k) tt r uncompress s (timed s f) (timed-Pair k (Admits k) tt r s f g)

  acked-Fed :
      (k : Key) (ack : ℕ) (d : Decoder)
      → IsSafe d
      → Admits k d.srv
      → Fed (Admits k) (acked uncompress (reverse k) ack d)
  unfolding acked
  acked-Fed k ack d h a =
      let back = reverse k in
      let r = in_pair-reverse back k (in_pair_refl back) in
      on_stream-Fed back (Admits k) tt r d
        (λ f. skip_pieces uncompress (first_in ack) f >>= λ g. some (store g)) h a
        λ f g. skipped-Fed back (Admits k) tt r uncompress (first_in ack) f g

  acknowledged-Fed :
      (s : Segment) (d : Decoder)
      → IsSafe d
      → Admits (key_of s) d.srv
      → Fed (Admits (key_of s)) (acknowledged uncompress s d)
  unfolding acknowledged
  acknowledged-Fed s d h a =
      if_cases (Fed (Admits (key_of s))) (bit_at s.flags ack_bit && ltb 0 d.held) _ (some d)
        (λ _. acked-Fed (key_of s) s.ack d h a) λ _. (h, a)

  abbrev Any : Option Key → Type 0
  Any o = Unit

  any : (R : Option Key → Type 0) (o : Option Decoder) → Fed R o → Fed Any o
  any R none h = h
  any R (some d) h = (h.0, tt)

  admitted-Fed :
      (s : Segment) (r : Bool × Decoder)
      → AllHeld r.1
      → Admitted (key_of s) r
      → Fed Any (admitted uncompress s r)
  unfolding admitted
  admitted-Fed s (false, d) h a = ((h, a.0), tt)
  admitted-Fed s (true, d) h a =
      let Mine = Admits (key_of s) in
      any Mine _ (
        bind-IsSafe Mine Mine (acknowledged uncompress s d) _
          (acknowledged-Fed s d (h, a.0) (a.1 refl))
          λ e g m.
            if_cases (Fed Mine) (length s.payload == 0 && not (bit_at s.flags syn_bit || closes s))
              (some e) _ (λ _. (g, m)) λ _. received-Fed s e g m)

  pub feed_segment-Fed :
      (s : Segment) (d : Decoder) → IsSafe d → Fed Any (feed_segment uncompress s d)
  unfolding feed_segment
  feed_segment-Fed s d (h, o) =
      admitted-Fed s (admit (key_of s) s.time d) (admit-AllHeld (key_of s) s.time d h)
        (admit-Admitted (key_of s) s.time d o)

  fed-Fed :
      (t : ℕ) (k : Key) (p : List ℕ) (r : Bool × Decoder)
      → AllHeld r.1
      → Admitted k r
      → Fed Any (fed uncompress t k p r)
  unfolding fed
  fed-Fed t k p (false, d) h a = ((h, a.0), tt)
  fed-Fed t k p (true, d) h a =
      let r = in_pair_refl k in
      any (Admits k) _ (
        bind-Fed k (Admits k) tt r (stream k t d) _ (stream-Both k t d (h, a.0) (a.1 refl)) λ f g.
          taken-Fed k (Admits k) tt r uncompress p t (record f { st = record f.st { last = t } })
            (
              record { quiet = g.0.quiet; few = g.0.few; counted = g.0.counted; room = g.0.room },
              g.1,
            ))

  pub feed-Fed :
      (t : ℕ) (src dst : AddrPort) (p : List ℕ) (d : Decoder)
      → IsSafe d
      → Fed Any (feed uncompress t src dst p d)
  unfolding feed
  feed-Fed t src dst p d h =
      let k : Key = record { src = src; dst = dst; if_index = 0 } in
      if_cases (Fed Any) (length p == 0) (some d) _ (λ _. (h, tt))
        λ _. fed-Fed t k p (admit k t d) (admit-AllHeld k t d h.0) (admit-Admitted k t d h.1)

  flush_loop-Fed : (ks : List Key) (d : Decoder) → IsSafe d → Fed Any (flush_loop uncompress ks d)
  unfolding flush_loop
  flush_loop-Fed [] d h = (h, tt)
  flush_loop-Fed (k ∷ ks) d h =
      bind-IsSafe Any Any _ _
        (on_stream-Fed k Any tt tt d (flush_stream uncompress) h tt
          λ f g. flush_stream-Fed k Any tt tt uncompress f g)
        λ e g m. flush_loop-Fed ks e g

  cleared-All : (sts : List Stream) → All IsHeld sts → All IsHeld (cleared uncompress sts)
  unfolding cleared
  cleared-All [] h = tt
  cleared-All (st ∷ sts) (h, hs) = (
    record { quiet = h.quiet; few = h.few; counted = h.counted; room = h.room },
    cleared-All sts hs,
  )

  cleared-Fits :
      (a : Key) (sts : List Stream) → All (Fits a) sts → All (Fits a) (cleared uncompress sts)
  unfolding cleared
  cleared-Fits a [] h = tt
  cleared-Fits a (st ∷ sts) (h, hs) = ((h.0, refl), cleared-Fits a sts hs)

  with_key-cleared :
      (j : Key) (sts : List Stream) → with_key j (cleared uncompress sts) ≡ with_key j sts
  unfolding cleared with_key
  with_key-cleared j [] = refl
  with_key-cleared j (st ∷ sts) = omega (arith, with_key-cleared j sts)

  pub flush-Fed : (d : Decoder) → IsSafe d → Fed Any (flush uncompress d)
  unfolding flush
  flush-Fed d h =
      bind-IsSafe Any Any _ _
        (flush_loop-Fed (map (λ st. st.key) (by_born uncompress d.streams)) d h)
        λ e g m. (
          (
            cleared-All e.streams g.0,
            record {
              once = λ j. omega (arith, with_key-cleared j e.streams, g.1.once j);
              anchor = g.1.anchor;
              fits = cleared-Fits g.1.anchor e.streams g.1.fits;
              at = g.1.at;
            },
          ),
          tt,
        )

abbrev GoesOn : Option Decoder → Type 0
GoesOn o = (e : Decoder) × (o ≡ some e) × IsSafe e

Fed-GoesOn : (o : Option Decoder) → Fed (λ x. Unit) o → GoesOn o
Fed-GoesOn none h = absurd h
Fed-GoesOn (some d) h = (d, refl, h.0)

-- Every operation of a decoder keeps its table safe, and returns. The table is safe if each stream
-- in it has a quiet framer and holds at most 64 pieces and 256 KiB past a gap, their bytes counted,
-- and the bytes of its early frames are counted; each key is in it once; and all streams hunt but
-- for the two of one pair, which is that of the lock if there is a lock. Then FeedSegment, Feed and
-- Flush return for every segment, payload and decompressor, without a panic, since a full table has
-- a stream that hunts and can be dropped, and the decoder they leave has a safe table again.
pub feed-IsSafe :
    (uncompress : List ℕ → ℕ → Option (List ℕ)) (d : Decoder)
    → IsSafe d
    → ((s : Segment) → (e : Decoder) × (feed_segment uncompress s d ≡ some e) × IsSafe e)
      × ((t : ℕ) (src dst : AddrPort) (p : List ℕ)
          → (e : Decoder) × (feed uncompress t src dst p d ≡ some e) × IsSafe e)
      × ((e : Decoder) × (flush uncompress d ≡ some e) × IsSafe e)
feed-IsSafe uncompress d h = (
  λ s. Fed-GoesOn _ (feed_segment-Fed uncompress s d h),
  λ t src dst p. Fed-GoesOn _ (feed-Fed uncompress t src dst p d h),
  Fed-GoesOn _ (flush-Fed uncompress d h),
)
