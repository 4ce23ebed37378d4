-- ===== src/Wire/Decoder/Lock/Kept.antt =====
-- wire/decoder.go: what the frames that a framer emits leave alone of its stream.
use a2kit.Common.{
  ℕ, ◌+◌, ◌≡◌, refl, ◌∙◌, Bool, not, ◌&&◌, ◌||◌, List, [], ◌∷◌, Option, none, some, arith, ◌==◌,
  leb, bit_at, if◌then◌else◌, if_cases,
}
use a2kit.Wire.Opcode.{opcode, combat, known}
use a2kit.Wire.Frame.{from_client}
use a2kit.Wire.Framer.State.{Emission}
use a2kit.Wire.Decoder.State.{reverse, same_key, Stream, is_set, wait}
use a2kit.Wire.Decoder.Table.{Focus, lookup}
use a2kit.Wire.Decoder.Lock.{
  queue_early, with_peer, lock_peer, as_server, keep_pair, lock, counted, hunt, let_out, emit,
  emit_all,
}

-- The framer, and what is put in order
pub record Kept (a b : Stream) : Type 0 where
  pub fr : b.fr ≡ a.fr
  pub held : b.held ≡ a.held
  pub held_bytes : b.held_bytes ≡ a.held_bytes
  pub next : b.next ≡ a.next

kept : (a : Stream) → Kept a a
kept a = record { fr = refl; held = refl; held_bytes = refl; next = refl }

Kept-trans : {a b c : Stream} → Kept a b → Kept b c → Kept a c
Kept-trans f g = record {
  fr = g.fr ∙ f.fr;
  held = g.held ∙ f.held;
  held_bytes = g.held_bytes ∙ f.held_bytes;
  next = g.next ∙ f.next;
}

-- What a step on a stream keeps
abbrev Keeps : Stream → Focus → Type 0
Keeps a f = Kept a f.st

queue_early-Kept : (f : Focus) → Keeps f.st (queue_early f)
unfolding queue_early
queue_early-Kept f = record { fr = refl; held = refl; held_bytes = refl; next = refl }

with_peer-Kept : (f : Focus) (o : Option Stream) → Keeps f.st (with_peer f o)
unfolding with_peer
with_peer-Kept f none = kept f.st
with_peer-Kept f (some peer) = record { fr = refl; held = refl; held_bytes = refl; next = refl }

lock_peer-Kept : (f : Focus) → Keeps f.st (lock_peer f)
unfolding lock_peer queue_early
lock_peer-Kept f =
    if_cases (Keeps f.st) (same_key f.st.key (reverse f.st.key))
      (queue_early (record f { st = record f.st { dir = from_client } }))
      (with_peer f (lookup (reverse f.st.key) f.d.streams))
      (λ _. record { fr = refl; held = refl; held_bytes = refl; next = refl })
      λ _. with_peer-Kept f _

lock-Kept : (f : Focus) → Keeps f.st (lock f)
unfolding lock as_server keep_pair
lock-Kept f =
    let g = as_server f in
    let server : Keeps f.st g = record { fr = refl; held = refl; held_bytes = refl; next = refl } in
    Kept-trans server (Kept-trans (queue_early-Kept g) (lock_peer-Kept (queue_early g)))

counted-Kept : (op : ℕ) (f : Focus) → Keeps f.st (counted op f)
unfolding counted
counted-Kept op f =
    let g : Focus = record f { st = record f.st { frames = f.st.frames + 1 } } in
    let plain : Keeps f.st g = record { fr = refl; held = refl; held_bytes = refl; next = refl } in
    let locked : Keeps f.st (lock g) = Kept-trans plain (lock-Kept g) in
    if_cases (Keeps f.st) (combat op && leb 2 g.st.frames) (lock g)
      (if leb 3 g.st.frames then lock g else g) (λ _. locked)
      λ _. if_cases (Keeps f.st) (leb 3 g.st.frames) (lock g) g (λ _. locked) λ _. plain

hunt-Kept : (op flags : ℕ) (t : Bool) (f : Focus) → Keeps f.st (hunt op flags t f)
unfolding hunt
hunt-Kept op flags t f =
    if_cases (Keeps f.st) (not (f.st.dir == 0)) f
      (if not (known op) || not t then g else counted op g) (λ _. kept f.st)
      λ _.
        if_cases (Keeps f.st) (not (known op) || not t) g (counted op g) (λ _. reset)
          λ _. Kept-trans reset (counted-Kept op g)
  where
    g : Focus
    g = if bit_at flags 4 then record f { st = record f.st { frames = 0 } } else f

    reset : Keeps f.st g
    reset =
        if_cases (Keeps f.st) (bit_at flags 4) (record f { st = record f.st { frames = 0 } }) f
          (λ _. record { fr = refl; held = refl; held_bytes = refl; next = refl }) λ _. kept f.st

let_out-Kept : (body : List ℕ) (flags : ℕ) (f : Focus) → Keeps f.st (let_out body flags f)
unfolding let_out wait
let_out-Kept body flags f = ground arith

emit-Kept : (e : Emission) (f : Focus) → Keeps f.st (emit e f)
unfolding emit
emit-Kept e f =
    if_cases (λ g. Keeps f.st (let_out e.body e.flags g)) (is_set f.d.srv) f
      (hunt (opcode e.body) e.flags e.trusted f) (λ _. let_out-Kept e.body e.flags f)
      λ _.
        Kept-trans (hunt-Kept (opcode e.body) e.flags e.trusted f) (let_out-Kept e.body e.flags _)

-- Emitting keeps the stream's framer, the segments it holds, and its place.
pub emit_all-Kept : (es : List Emission) (f : Focus) → Keeps f.st (emit_all es f)
unfolding emit_all
emit_all-Kept [] f = kept f.st
emit_all-Kept (e ∷ es) f = Kept-trans (emit-Kept e f) (emit_all-Kept es (emit e f))
