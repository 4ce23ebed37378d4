-- ===== src/Wire/Decoder/Lock/Others.antt =====
-- wire/decoder.go: the lock and what is let out, beside the streams that stay in the table.
use a2kit.Common.{
  ℕ, Bool, not, ◌&&◌, ◌||◌, List, [], ◌∷◌, Option, none, some, if_cases, leb, ◌==◌, if◌then◌else◌,
  bit_at, bit_or, ◌≡◌, ◌+◌, refl, arith,
}
use a2kit.Wire.Opcode.{opcode, known, combat}
use a2kit.Wire.Frame.{Frame}
use a2kit.Wire.Framer.State.{Emission}
use a2kit.Wire.Decoder.State.{Key, reverse, Stream, Decoder, is_set, wait}
use a2kit.Wire.Decoder.Early.{wait-keeps}
use a2kit.Wire.Decoder.Table.{Focus, lookup, remove}
use a2kit.Wire.Decoder.Table.Streams.{IfHeld, lookup-IfHeld, remove-All}
use a2kit.Wire.Decoder.Table.Orderly.{
  with_key, Fits, IfAny, lookup-IfAny, remove-Every, Looked, lookup-Looked,
}
use a2kit.Wire.Decoder.Reassembly.Held.{IsHeld}
use a2kit.Wire.Decoder.Lock.{
  lock, counted, hunt, let_out, emit, emit_all, let_go, let_go_peer, frame_of,
}
use a2kit.Wire.Decoder.Lock.Locking.{Others, lock-Others}

module _ (q : Key) (R : Option Key → Type 0) (r0 : R none) (rq : R (some q)) where
  counted-Others : (op : ℕ) (f : Focus) → Others q R r0 rq f → Others q R r0 rq (counted op f)
  unfolding counted
  counted-Others op f h =
      let g : Focus = record f { st = record f.st { frames = f.st.frames + 1 } } in
      if_cases (Others q R r0 rq) (combat op && leb 2 g.st.frames) (lock g) _
        (λ _. lock-Others q R r0 rq g h)
        λ _.
          if_cases (Others q R r0 rq) (leb 3 g.st.frames) (lock g) g
            (λ _. lock-Others q R r0 rq g h) λ _. h

  hunt-Others :
      (op flags : ℕ) (t : Bool) (f : Focus)
      → Others q R r0 rq f
      → Others q R r0 rq (hunt op flags t f)
  unfolding hunt
  hunt-Others op flags t f h =
      if_cases (Others q R r0 rq) (not (f.st.dir == 0)) f _ (λ _. h)
        λ _.
          if_cases (Others q R r0 rq) (not (known op) || not t) g (counted op g) (λ _. reset)
            λ _. counted-Others op g reset
    where
      g : Focus
      g = if bit_at flags 4 then record f { st = record f.st { frames = 0 } } else f

      reset : Others q R r0 rq g
      reset =
          if_cases (Others q R r0 rq) (bit_at flags 4)
            (record f { st = record f.st { frames = 0 } }) f (λ _. h) λ _. h

  wait-Others :
      (frame : Frame) (f : Focus)
      → Others q R r0 rq f
      → Others q R r0 rq (record f { st = wait frame f.st })
  unfolding wait
  wait-Others frame f (h, g) = (
    h,
    record {
      key = g.key;
      once = g.once;
      anchor = g.anchor;
      here = g.here;
      counted = (wait-keeps frame f.st g.counted).2;
      there = g.there;
      at = g.at;
      more = g.more;
    },
  )

  let_out-Others :
      (body : List ℕ) (flags : ℕ) (f : Focus)
      → Others q R r0 rq f
      → Others q R r0 rq (let_out body flags f)
  unfolding let_out
  let_out-Others body flags f h =
      let st = f.st in
      let all = bit_or flags st.dir in
      if_cases (Others q R r0 rq) (bit_at all 1 && not f.d.config.emit_client) f _ (λ _. h)
        λ _.
          if_cases (Others q R r0 rq) (f.d.config.known_only && not (known (opcode body))) f _
            (λ _. h)
            λ _.
              if_cases (Others q R r0 rq) (st.dir == 0 && not f.d.config.emit_unlocked) _ _
                (λ _. wait-Others (frame_of st body all) f h) λ _. h

  emit-Others : (e : Emission) (f : Focus) → Others q R r0 rq f → Others q R r0 rq (emit e f)
  unfolding emit
  emit-Others e f h = let_out-Others e.body e.flags _ (
      if_cases (Others q R r0 rq) (is_set f.d.srv) f (hunt (opcode e.body) e.flags e.trusted f)
        (λ _. h) λ _. hunt-Others (opcode e.body) e.flags e.trusted f h)

  pub emit_all-Others :
      (es : List Emission) (f : Focus) → Others q R r0 rq f → Others q R r0 rq (emit_all es f)
  unfolding emit_all
  emit_all-Others [] f h = h
  emit_all-Others (e ∷ es) f h = emit_all-Others es (emit e f) (emit-Others e f h)

  let_go_peer-Others :
      (t : ℕ) (f : Focus) (peer : Stream)
      → IsHeld peer
      → Others q R r0 rq (record f { d = record f.d { streams = peer ∷ f.d.streams } })
      → Others q R r0 rq (record f { d = let_go_peer t peer f.d })
  unfolding let_go_peer with_key
  let_go_peer-Others t f peer g (h, k) =
      if_cases (λ d. Others q R r0 rq (record f { d = d })) (is_set peer.closed) _ _ (λ _. (h, k))
        λ _. (
          (record { quiet = g.quiet; few = g.few; counted = g.counted; room = g.room }, h.1),
          record {
            key = k.key;
            once = k.once;
            anchor = k.anchor;
            here = k.here;
            counted = k.counted;
            there = k.there;
            at = k.at;
            more = k.more;
          },
        )

  pub let_go-Others : (t : ℕ) (f : Focus) → Others q R r0 rq f → Others q R r0 rq (let_go t f)
  unfolding let_go with_key
  let_go-Others t f (h, g) =
      found (lookup back f.d.streams) (lookup-Looked back f.d.streams)
        (lookup-IfHeld back f.d.streams h) (lookup-IfAny (Fits g.anchor) back f.d.streams g.there)
    where
      back : Key
      back = reverse f.st.key

      d : Decoder
      d = record f.d { srv = none }

      found :
          (o : Option Stream)
          → Looked back f.d.streams o
          → IfHeld o
          → IfAny (Fits g.anchor) o
          → Others q R r0 rq (elim o as (λ x. Focus) [
            | none ↦ record f { d = d }
            | some peer ↦ record f {
              d = let_go_peer t peer (record d { streams = remove back d.streams });
            }
          ])
      found none l i p = (
        h,
        record {
          key = g.key;
          once = g.once;
          anchor = g.anchor;
          here = g.here;
          counted = g.counted;
          there = g.there;
          at = tt;
          more = r0;
        },
      )
      found (some peer) (e, l) i p =
          let_go_peer-Others t (record f { d = record d { streams = remove back d.streams } }) peer
            i
            (
              (i, remove-All back f.d.streams h),
              record {
                key = g.key;
                once = λ j. omega (arith, l j, g.once j);
                anchor = g.anchor;
                here = g.here;
                counted = g.counted;
                there = (p, remove-Every (Fits g.anchor) back f.d.streams g.there);
                at = tt;
                more = r0;
              },
            )

pub let_go-stream : (t : ℕ) (f : Focus) → (let_go t f).st ≡ f.st
unfolding let_go
let_go-stream t f = found (lookup back f.d.streams)
  where
    back : Key
    back = reverse f.st.key

    found :
        (o : Option Stream)
        → (elim o as (λ x. Focus) [
          | none ↦ record f { d = record f.d { srv = none } }
          | some peer ↦ record f {
            d = let_go_peer t peer (record f.d { srv = none; streams = remove back f.d.streams });
          }
        ]).st
          ≡ f.st
    found none = refl
    found (some peer) = refl
