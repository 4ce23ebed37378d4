-- ===== src/Wire/Decoder/Feed/Streamed.antt =====
-- wire/decoder.go: the steps of FeedSegment, Feed and Flush on one stream, out of a safe table.
use mathlib.Core.Path.{subst}
use a2kit.Common.{
  ℕ, ◌≤◌, Bool, true, ◌&&◌, List, Option, none, some, if_cases, ◌==◌, length, add32, ltb, refl, sym,
  ◌∙◌, ap, arith,
}
use a2kit.Common.Results.{◌>>=◌}
use a2kit.Wire.Frame.{Segment}
use a2kit.Wire.Framer.Write.{end}
use a2kit.Wire.Framer.Write.Total.{end-returns}
use a2kit.Wire.Decoder.State.{Key, Stream, Piece, Decoder, is_set, max_held, max_held_bytes}
use a2kit.Wire.Decoder.Table.{Focus, lookup, remove, store}
use a2kit.Wire.Decoder.Table.Streams.{AllHeld, IfHeld, lookup-IfHeld, remove-All}
use a2kit.Wire.Decoder.Table.Orderly.{
  with_key, Fits, IsOrderly, IfAny, lookup-IfAny, remove-Every, Looked, lookup-Looked,
}
use a2kit.Wire.Decoder.Table.Room.{Out}
use a2kit.Wire.Decoder.Lock.{let_go}
use a2kit.Wire.Decoder.Lock.Locking.{Others}
use a2kit.Wire.Decoder.Lock.Others.{let_go-Others, let_go-stream}
use a2kit.Wire.Decoder.Reassembly.{take, place, framed, skip_pieces}
use a2kit.Wire.Decoder.Reassembly.Ran.{Ran, total, take-Ran, framed-Ran}
use a2kit.Wire.Decoder.Reassembly.Held.{IsHeld, Fine, skip_while-Fine}
use a2kit.Wire.Decoder.Reassembly.Place.{place-returns}
use a2kit.Wire.Decoder.Reassembly.Others.{
  IfOthers, take-IfOthers, skip_pieces-IfOthers, place-IfOthers, framed-IfOthers,
}
use a2kit.Wire.Decoder.Feed.{closes, first_seq, timed, synced_at, closed_by, streamed, flush_stream}

-- A decoder whose streams are within their limits and in order
abbrev pub IsSafe : Decoder → Type 0
IsSafe d = AllHeld d × IsOrderly d.streams d.srv

-- A step that returned, with its streams so, and more of its lock
abbrev pub Fed : (Option Key → Type 0) → Option Decoder → Type 0
Fed R none = ⊥
Fed R (some d) = IsSafe d × R d.srv

pub bind-IsSafe :
    (R Q : Option Key → Type 0) (o : Option Decoder) (k : Decoder → Option Decoder)
    → Fed R o
    → ((d : Decoder) → IsSafe d → R d.srv → Fed Q (k d))
    → Fed Q (o >>= k)
bind-IsSafe R Q none k h g = h
bind-IsSafe R Q (some d) k h g = g d h.0 h.1

-- A stream of a decoder, taken out
abbrev pub without : Key → Stream → Decoder → Focus
without k st d = record { st = st; d = record d { streams = remove k d.streams } }

module _ (q : Key) (R : Option Key → Type 0) (r0 : R none) (rq : R (some q)) where
  -- A stream within its limits, and the rest of the table
  abbrev pub Pair : Focus → Type 0
  Pair f = IsHeld f.st × Others q R r0 rq f

  abbrev pub Both : Option Focus → Type 0
  Both none = ⊥
  Both (some f) = Pair f

  pub Out-Both : (o : Option Focus) → Out R r0 q o → Both o
  Out-Both none h = h
  Out-Both (some f) ((h, a), g) = (h, (a, g))

  pub bind-Both :
      (o : Option Focus) (k : Focus → Option Focus)
      → Both o
      → ((f : Focus) → Pair f → Both (k f))
      → Both (o >>= k)
  bind-Both none k h g = h
  bind-Both (some f) k h g = g f h

  pub bind-Fed :
      (o : Option Focus) (k : Focus → Option Decoder)
      → Both o
      → ((f : Focus) → Pair f → Fed R (k f))
      → Fed R (o >>= k)
  bind-Fed none k h g = h
  bind-Fed (some f) k h g = g f h

  pub store-IsSafe : (f : Focus) → Pair f → IsSafe (store f) × R f.d.srv
  unfolding with_key
  store-IsSafe f (s, (h, g)) = (
    (
      (s, h),
      record { once = g.once; anchor = g.anchor; fits = ((g.here, g.counted), g.there); at = g.at },
    ),
    g.more,
  )

  store-Fed : (o : Option Focus) → Both o → Fed R (o >>= λ g. some (store g))
  store-Fed o h = bind-Fed o (λ g. some (store g)) h store-IsSafe

  without-Pair :
      (st : Stream) (d : Decoder) (o : IsOrderly d.streams d.srv)
      → Looked q d.streams (some st)
      → IsHeld st
      → Fits o.anchor st
      → AllHeld d
      → R d.srv
      → Pair (without q st d)
  without-Pair st d o (e, l) s p h r = (
    s,
    (
      remove-All q d.streams h,
      record {
        key = e;
        once = λ j. omega (arith, l j, o.once j);
        anchor = o.anchor;
        here = p.0;
        counted = p.1;
        there = remove-Every (Fits o.anchor) q d.streams o.fits;
        at = o.at;
        more = r;
      },
    ),
  )

  -- A step on the stream of a key, if there is one
  pub on_stream-Fed :
      (d : Decoder) (k : Focus → Option Decoder)
      → IsSafe d
      → R d.srv
      → ((f : Focus) → Pair f → Fed R (k f))
      → Fed R (elim (lookup q d.streams) as (λ x. Option Decoder) [
        | none ↦ some d
        | some st ↦ k (without q st d)
      ])
  on_stream-Fed d k (h, o) r g =
      found (lookup q d.streams) (lookup-Looked q d.streams) (lookup-IfHeld q d.streams h)
        (lookup-IfAny (Fits o.anchor) q d.streams o.fits)
    where
      found :
          (x : Option Stream)
          → Looked q d.streams x
          → IfHeld x
          → IfAny (Fits o.anchor) x
          → Fed R (elim x as (λ y. Option Decoder) [ none ↦ some d | some st ↦ k (without q st d) ])
      found none l s p = ((h, o), r)
      found (some st) l s p = g (without q st d) (without-Pair st d o l s p h r)

  Ran-Both : (st : Stream) (o : Option Focus) → IsHeld st → Ran st o → IfOthers q R r0 rq o → Both o
  Ran-Both st none s h g = h
  Ran-Both st (some f) s h g = (
    record {
      quiet = h.0;
      few = subst (λ held. length held ≤ max_held) (sym h.1) s.few;
      counted = h.2 ∙ s.counted ∙ ap total (sym h.1);
      room = subst (λ held. total held ≤ max_held_bytes) (sym h.1) s.room;
    },
    g,
  )

  Fine-Both : (n : ℕ) (o : Option Focus) → Fine n o → IfOthers q R r0 rq o → Both o
  Fine-Both n none h g = h
  Fine-Both n (some f) h g = (h.0, g)

  -- What does not touch the stream's pieces, its key, its direction and its early frames
  pub timed-Pair : (s : Segment) (f : Focus) → Pair f → Pair (timed s f)
  unfolding timed
  timed-Pair s f (h, g) =
      if_cases Pair (closes s) _ _
        (λ _.
          if_cases
            (λ d. Pair (record { st = record f.st { last = s.time; closed = some s.time }; d = d }))
            (is_set f.st.closed) _ _ (λ _. (st, g)) λ _. (st, g))
        λ _. (st, g)
    where
      st : {c : Option ℕ} → IsHeld (record f.st { last = s.time; closed = c })
      st = record { quiet = h.quiet; few = h.few; counted = h.counted; room = h.room }

  synced_at-Pair : (seq : ℕ) (f : Focus) → Pair f → Pair (synced_at seq f)
  unfolding synced_at
  synced_at-Pair seq f (h, g) =
      if_cases Pair f.st.synced f _ (λ _. (h, g))
        λ _. (record { quiet = h.quiet; few = h.few; counted = h.counted; room = h.room }, g)

  closed_by-Pair : (s : Segment) (seen : Bool) (f : Focus) → Pair f → Pair (closed_by s seen f)
  unfolding closed_by
  closed_by-Pair s seen f (h, g) =
      if_cases Pair
        (is_set f.d.srv && seen && closes s && f.st.next == add32 (first_seq s) (length s.payload))
        (let_go s.time f) f
        (λ _. (subst IsHeld (sym (let_go-stream s.time f)) h, let_go-Others q R r0 rq s.time f g))
        λ _. (h, g)

  module _ (uncompress : List ℕ → ℕ → Option (List ℕ)) where
    skip_pieces-Both :
        (P : List Piece → Bool) (f : Focus) → Pair f → Both (skip_pieces uncompress P f)
    unfolding skip_pieces
    skip_pieces-Both P f h =
        Fine-Both (length f.st.held) _
          (skip_while-Fine uncompress P (length f.st.held) f.st.held f refl (omega arith) h.0)
          (skip_pieces-IfOthers q R r0 rq uncompress P f h.1)

    place-Both :
        (seq : ℕ) (p : List ℕ) (t : ℕ) (f : Focus) → Pair f → Both (place uncompress seq p t f)
    place-Both seq p t f h =
        let (g, e, k) = place-returns uncompress seq p t f h.0 in
        subst Both (sym e)
          (k, subst (IfOthers q R r0 rq) e (place-IfOthers q R r0 rq uncompress seq p t f h.1))

    pub streamed-Fed : (s : Segment) (f : Focus) → Pair f → Fed R (streamed uncompress s f)
    unfolding streamed
    streamed-Fed s f h =
        let g = synced_at (first_seq s) f in
        let held = synced_at-Pair (first_seq s) f h in
        bind-Fed _ _
          (if_cases Both (ltb 0 (length s.payload)) _ _
            (λ _. place-Both (first_seq s) s.payload s.time g held) λ _. held)
          λ i k. store-IsSafe (closed_by s f.st.synced i) (closed_by-Pair s f.st.synced i k)

    pub taken-Fed :
        (p : List ℕ) (t : ℕ) (f : Focus)
        → Pair f
        → Fed R (take uncompress p t f >>= λ g. some (store g))
    taken-Fed p t f (h, g) = store-Fed (take uncompress p t f) (
        Ran-Both f.st _ h (take-Ran uncompress p t f h.quiet)
          (take-IfOthers q R r0 rq uncompress p t f g))

    ended-Both : (f : Focus) → Pair f → Both (end uncompress f.st.fr >>= framed uncompress f)
    ended-Both f h =
        let (fr, es, e, w) = end-returns uncompress f.st.fr h.0.quiet in
        Ran-Both f.st _ h.0 (rw (e, Ran) (framed-Ran uncompress f fr es w))
          (framed-IfOthers q R r0 rq uncompress f (end uncompress f.st.fr) h.1)

    pub flush_stream-Fed : (f : Focus) → Pair f → Fed R (flush_stream uncompress f)
    unfolding flush_stream
    flush_stream-Fed f h =
        bind-Fed (skip_pieces uncompress (λ held. true) f) _ (skip_pieces-Both (λ held. true) f h)
          λ g k. store-Fed (end uncompress g.st.fr >>= framed uncompress g) (ended-Both g k)

    pub skipped-Fed :
        (P : List Piece → Bool) (f : Focus)
        → Pair f
        → Fed R (skip_pieces uncompress P f >>= λ g. some (store g))
    skipped-Fed P f h = store-Fed _ (skip_pieces-Both P f h)
