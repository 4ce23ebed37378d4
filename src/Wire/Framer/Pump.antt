-- ===== src/Wire/Framer/Pump.antt =====
-- wire/framer.go: pump, which parses every frame the buffer holds.
pub mod Progress
pub mod Frames
use a2kit.Common.{
  ℕ, zero, suc, ◌+◌, ◌-◌, Bool, true, false, not, ◌&&◌, ◌||◌, List, [], ◌∷◌, Option, none, some,
  ltb, ◌==◌, if◌then◌else◌, length, take, drop,
}
use a2kit.Wire.Scan.{Verdict}
use a2kit.Wire.Envelope.{strip}
use a2kit.Wire.Framer.State.{Framer, Emission, trusted, probation_frames, max_depth}
use a2kit.Wire.Framer.Length.{Length, invalid, partial, whole, frame_len}
use a2kit.Wire.Framer.Bundle.{parse}
use a2kit.Wire.Framer.Boundary.{envelope, follows, resume}

-- A round of pump's loop: `rest` is buf[off:], `start` is off == 0, `kept` as in the source, and
-- the frames emitted so far. The field buf is set when the loop ends.
pub record Round : Type 0 where
  pub kept : Bool
  pub start : Bool
  pub rest : List ℕ
  pub framer : Framer
  pub frames : List Emission

pub data Next : Type 0 where
  stop : Round → Next
  go : Round → Next

-- framer.strip, on the bytes from `from` on
unfoldable pub strip_at : List ℕ → Framer → List ℕ × Framer
strip_at p f =
    let (out, over, env) = strip f.env p in
    (out, record f { env = env; aligned = f.aligned && not over })

found_envelopes : Round → Next
unfolding strip_at
found_envelopes s =
    let f = s.framer in
    let (rest, f') = strip_at s.rest (record f { env = record f.env { on = true } }) in
    go (record s { kept = false; rest = rest; framer = f' })

-- The probation and the resync that a frame brings.
take_frame : Framer → Framer
take_frame f =
    if ltb 0 f.skipped
    then record f {
      skipped = 0;
      resync = true;
      probation = probation_frames;
      resyncs = f.resyncs + 1;
      begun = true;
      aligned = true;
    }
    else record f { probation = f.probation - 1; begun = true; aligned = true }

garbage : Round → Next
garbage s =
    let f = s.framer in
    go (record s {
      start = false;
      rest = drop 1 s.rest;
      framer = record f { begun = true; aligned = false; skipped = f.skipped + 1 };
    })

is_no : Verdict → Bool
is_no Verdict.no = true
is_no Verdict.maybe = false
is_no Verdict.yes = false

-- resume's answer for a frame that is not complete
wait_or_skip : Round → ℕ → Next
wait_or_skip s skip =
    let f = s.framer in
    if skip == 0
    then stop (record s { framer = record f { waiting = not f.aligned } })
    else go (record s {
      start = false;
      rest = drop skip s.rest;
      framer = record f { begun = true; skipped = f.skipped + skip };
    })

incomplete : Round → Next
unfolding wait_or_skip
incomplete s =
    let f = s.framer in
    if f.aligned
    then wait_or_skip s 0
    else let (skip, ahead) = resume f.known_only s.rest (s.kept && s.start) f.ahead in
      wait_or_skip (record s { framer = record f { ahead = ahead } }) skip

module _ (uncompress : List ℕ → ℕ → Option (List ℕ)) where
  deliver : Round → ℕ → ℕ → Next
  unfolding take_frame
  deliver s n head =
      let f = take_frame s.framer in
      let o =
        parse uncompress f.known_only (trusted f) max_depth 0 (take (n - head) (drop head s.rest)) 0
          (record { resync = f.resync; frames = s.frames }) in
      go (record s {
        start = false;
        rest = drop n s.rest;
        framer = record f { resync = o.resync };
        frames = o.frames;
      })

  frame_step : Round → Length → Next
  unfolding garbage incomplete deliver is_no
  frame_step s invalid = garbage s
  frame_step s (partial head) = incomplete s
  frame_step s (whole n head) =
      let f = s.framer in
      if not f.aligned && is_no (follows f.known_only f.env.on (drop n s.rest))
      then garbage s
      else deliver s n head

  at_byte : Round → ℕ → Next
  unfolding frame_step
  at_byte s b =
      let f = s.framer in
      if b == 0
      then go (record s { start = false; rest = drop 1 s.rest })
      else frame_step s (frame_len f.known_only s.rest (trusted f))

  -- The envelope check's answer
  decide : Round → ℕ → Verdict → Next
  unfolding found_envelopes at_byte
  decide s b Verdict.yes = found_envelopes s
  decide s b Verdict.maybe = if s.framer.over then at_byte s b else stop s
  decide s b Verdict.no = at_byte s b

  -- One round, on a buffer that begins with `b`
  pump_step : Round → ℕ → Next
  unfolding decide
  pump_step s b =
      let f = s.framer in
      if not f.env.on && (f.aligned || not f.begun)
      then decide s b (envelope f.known_only s.rest f.aligned)
      else at_byte s b

  -- The loop; `none` means that the fuel ran out.
  pump_loop : ℕ → Round → List ℕ → Option Round
  unfolding pump_step
  pump_loop fuel s [] = some s
  pump_loop zero s (b ∷ p) = none
  pump_loop (suc fuel) s (b ∷ p) = elim (pump_step s b) [
    | stop t ↦ some t
    | go t ↦ pump_loop fuel t t.rest
  ]

  finish : Option Round → Option (Framer × List Emission)
  finish none = none
  finish (some t) = some (record t.framer { buf = t.rest }, t.frames)

  -- pump: each round that goes on leaves fewer bytes, so as many rounds as bytes are enough.
  unfoldable pub pump : Framer → Option (Framer × List Emission)
  unfolding pump_loop finish
  pump f = finish (
      pump_loop (length f.buf)
        (record {
          kept = f.waiting;
          start = true;
          rest = f.buf;
          framer = record f { waiting = false };
          frames = [];
        })
        f.buf)
