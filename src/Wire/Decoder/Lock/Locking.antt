-- ===== src/Wire/Decoder/Lock/Locking.antt =====
-- wire/decoder.go: lock, beside the streams that stay in the table.
use a2kit.Common.{
  ℕ, Bool, true, ◌||◌, List, [], ◌∷◌, Option, none, some, if_cases, ◌==◌, ◌≡◌, ◌≤◌, ◌+◌, refl, ap,
  arith, All, All-map,
}
use a2kit.Wire.Frame.{Frame, from_client, from_server}
use a2kit.Wire.Decoder.State.{Key, reverse, same_key, Stream, Decoder}
use a2kit.Wire.Decoder.Early.{payloads}
use a2kit.Wire.Decoder.Table.{Focus, lookup, remove, drop_all}
use a2kit.Wire.Decoder.Table.Streams.{AllHeld, IfHeld, lookup-IfHeld, remove-All, drop_all-AllHeld}
use a2kit.Wire.Decoder.Table.Orderly.{
  times, with_key, Fits, IsAt, remove-Every, Looked, lookup-Looked, drop_all-Shrunk, Shrunk,
  same_key_refl,
}
use a2kit.Wire.Decoder.Table.Room.{IsSound}
use a2kit.Wire.Decoder.Reassembly.Held.{IsHeld}
use a2kit.Wire.Decoder.Lock.{
  queue_early, with_peer, lock_peer, keys_but, as_server, keep_pair, lock,
}
use a2kit.Wire.Decoder.Lock.Pair.{drop_all-keys_but}

-- A stream whose early frames' bytes are counted
abbrev Counts : Stream → Type 0
Counts st = st.early_bytes ≡ payloads st.early

-- In the midst of a lock on the stream of key `q`, by the parts of what is out of the table
record Locking (q k : Key) (early : List Frame) (early_bytes : ℕ) (sts : List Stream)
    (srv : Option Key) : Type 0 where
  pub key : k ≡ q
  pub once : (j : Key) → times j k + with_key j sts ≤ 1
  pub counted : early_bytes ≡ payloads early
  pub there : All Counts sts
  pub at : srv ≡ some q

or_back : (a b c : Bool) → c ≡ true → a || (b || c) ≡ true
or_back a b c h = ground arith

or_front : (a b c : Bool) → b ≡ true → a || (b || c) ≡ true
or_front a b c h = ground arith

-- The server and its peer are the pair.
peer-Fits : (q k : Key) (st : Stream) → k ≡ q → st.key ≡ reverse k → Counts st → Fits q st
peer-Fits q k st e f c =
    (rw (f, e) (or_back (st.dir == 0) (same_key q (reverse q)) (same_key q q) (same_key_refl q)), c)

module _ (q : Key) (R : Option Key → Type 0) (r0 : R none) (rq : R (some q)) where
  -- The table's streams, beside a stream of key `q` taken out
  abbrev pub Others : Focus → Type 0
  Others f = AllHeld f.d × IsSound q R f

  abbrev Locks : Focus → Type 0
  Locks f = AllHeld f.d × Locking q f.st.key f.st.early f.st.early_bytes f.d.streams f.d.srv

  queue_early-Locks : (f : Focus) → Locks f → Locks (queue_early f)
  unfolding queue_early
  queue_early-Locks f (h, g) =
      let P : Decoder → Type 0 =
        λ (d : Decoder). AllHeld d × Locking q f.st.key [] 0 d.streams d.srv in
      if_cases P (f.st.dir == from_server || f.d.config.emit_client) _ f.d (λ _. (h, now))
        λ _. (h, now)
    where
      now : Locking q f.st.key [] 0 f.d.streams f.d.srv
      now = record { key = g.key; once = g.once; counted = refl; there = g.there; at = g.at }

  with_peer-Locks :
      (f : Focus) (o : Option Stream)
      → Looked (reverse f.st.key) f.d.streams o
      → IfHeld o
      → Locks f
      → Locks (with_peer f o)
  unfolding with_peer queue_early with_key
  with_peer-Locks f none l i h = h
  with_peer-Locks f (some peer) (e, l) i (h, g) =
      let P : Decoder → Type 0 = λ (d : Decoder).
        AllHeld (record d { streams = calm ∷ d.streams })
        × Locking q f.st.key f.st.early f.st.early_bytes (calm ∷ d.streams) d.srv in
      if_cases P (from_client == from_server || f.d.config.emit_client) _ _ (λ _. (held, now))
        λ _. (held, now)
    where
      calm : Stream
      calm = record peer { dir = from_client; early = []; early_bytes = 0 }

      rest : List Stream
      rest = remove (reverse f.st.key) f.d.streams

      held : All IsHeld (calm ∷ rest)
      held = (
        record { quiet = i.quiet; few = i.few; counted = i.counted; room = i.room },
        remove-All (reverse f.st.key) f.d.streams h,
      )

      now : Locking q f.st.key f.st.early f.st.early_bytes (calm ∷ rest) f.d.srv
      now = record {
        key = g.key;
        once = λ j. omega (arith, l j, g.once j);
        counted = g.counted;
        there = (refl, remove-Every Counts (reverse f.st.key) f.d.streams g.there);
        at = g.at;
      }

  lock_peer-Locks : (f : Focus) → Locks f → Locks (lock_peer f)
  unfolding lock_peer
  lock_peer-Locks f (h, g) =
      if_cases Locks (same_key f.st.key (reverse f.st.key)) _ _
        (λ _.
          queue_early-Locks (record f { st = record f.st { dir = from_client } })
            (
              h,
              record {
                key = g.key;
                once = g.once;
                counted = g.counted;
                there = g.there;
                at = g.at;
              },
            ))
        λ _.
          with_peer-Locks f (lookup (reverse f.st.key) f.d.streams)
            (lookup-Looked (reverse f.st.key) f.d.streams)
            (lookup-IfHeld (reverse f.st.key) f.d.streams h) (h, g)

  as_server-Locks : (f : Focus) → Others f → Locks (as_server f)
  unfolding as_server
  as_server-Locks f (h, g) = (
    h,
    record {
      key = g.key;
      once = g.once;
      counted = g.counted;
      there = All-map (Fits g.anchor) Counts (λ st p. p.1) f.d.streams g.there;
      at = ap some g.key;
    },
  )

  keep_pair-Others : (f : Focus) → Locks f → Others (keep_pair f)
  unfolding keep_pair
  keep_pair-Others f (h, g) = (
    drop_all-AllHeld ks f.d h,
    record {
      key = g.key;
      once = λ j. omega (arith, s.fewer j, g.once j);
      anchor = q;
      here =
          rw g.key
            (or_front (f.st.dir == 0) (same_key q q) (same_key q (reverse q)) (same_key_refl q));
      counted = g.counted;
      there =
          placed e.streams (drop_all-keys_but (reverse f.st.key) f.d)
            (s.left Counts (λ st c. c) g.there);
      at = s.lock (IsAt q) tt (rw g.at refl);
      more = s.lock R r0 (rw g.at rq);
    },
  )
    where
      ks : List Key
      ks = keys_but (reverse f.st.key) f.d.streams

      e : Decoder
      e = drop_all ks f.d

      s : Shrunk f.d e
      s = drop_all-Shrunk ks f.d

      placed :
          (sts : List Stream)
          → All (λ st. st.key ≡ reverse f.st.key) sts
          → All Counts sts
          → All (Fits q) sts
      placed [] a b = tt
      placed (st ∷ sts) (a, aa) (b, bb) = (peer-Fits q f.st.key st g.key a b, placed sts aa bb)

  pub lock-Others : (f : Focus) → Others f → Others (lock f)
  unfolding lock
  lock-Others f h =
      let a = as_server f in
      keep_pair-Others (lock_peer (queue_early a))
        (lock_peer-Locks (queue_early a) (queue_early-Locks a (as_server-Locks f h)))
