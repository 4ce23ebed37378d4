-- ===== src/Wire/Framer/Write.antt =====
-- wire/framer.go: write, lose, end and refind.
pub mod Total
pub mod Frames
use a2kit.Common.{
  ℕ, zero, suc, ◌+◌, ◌-◌, min, Bool, true, false, not, List, [], ◌∷◌, ◌++◌, Option, none, some, leb,
  ltb, if◌then◌else◌, length, take, drop, u32_le,
}
use a2kit.Wire.Scan.{Verdict, Scan, new_scan, find}
use a2kit.Wire.Envelope.{no_envelopes, skip, believable, chain}
use a2kit.Wire.Framer.State.{Framer, Emission, max_buf}
use a2kit.Wire.Framer.Pump.{pump, strip_at}

-- framer.strip, from an index of the buffer on
strip_from : ℕ → Framer → Framer
unfolding strip_at
strip_from from f =
    let (out, f') = strip_at (drop from f.buf) f in record f' { buf = take from f.buf ++ out }

header_at : List ℕ → ℕ → Verdict
header_at buf h = if believable (u32_le (drop h buf)) then chain buf h max_buf else Verdict.no

refound : Framer → Option ℕ × Scan → Bool × Framer
unfolding strip_from
refound f (some h, s) = (
  true,
  strip_from 0 (record f { env = record f.env { lost = false; left = h; search = new_scan } }),
)
refound f (none, s) =
    if ltb (length f.buf) max_buf
    then (false, record f { env = record f.env { search = s } })
    else (true, record f { env = no_envelopes })

-- refind
unfoldable pub refind : Framer → Bool × Framer
unfolding header_at refound
refind f = refound f (find (header_at f.buf) 0 (length f.buf - 3) f.env.search)

-- What the bytes of a write, appended at `from`, do to the envelopes, and whether to pump.
unwrapped : ℕ → Framer → Bool × Framer
unfolding refind strip_from
unwrapped from f =
    if f.env.lost then refind f else if f.env.on then (true, strip_from from f) else (true, f)

module _ (uncompress : List ℕ → ℕ → Option (List ℕ)) where
  -- lose, after the pump of a stream not begun
  lost : ℕ → Framer × List Emission → Framer × List Emission
  lost n (f, frames) = (
    record f {
      skipped = f.skipped + length f.buf + n;
      buf = [];
      aligned = false;
      waiting = false;
      env = if f.env.on then skip n f.env else f.env;
    },
    frames,
  )

  -- lose
  unfoldable pub lose : ℕ → Framer → Option (Framer × List Emission)
  unfolding lost
  lose n f =
      if f.begun
      then some (lost n (f, []))
      else elim (pump uncompress (record f { begun = true })) [
        | none ↦ none
        | some r ↦ some (lost n r)
      ]

  -- The pump of a round, if the envelopes allow one.
  pump_ready : List Emission → Bool × Framer → Option (Framer × List Emission)
  pump_ready frames (false, f) = some (f, frames)
  pump_ready frames (true, f) = elim (pump uncompress f) [
    | none ↦ none
    | some (g, more) ↦ some (g, frames ++ more)
  ]

  -- The rest of a round of write, once the buffer has room: the bytes taken, then the pump.
  taken : List ℕ → Framer × List Emission → Option (Framer × List Emission)
  unfolding unwrapped pump_ready
  taken p (f, frames) = pump_ready frames (unwrapped (length f.buf) (record f { buf = f.buf ++ p }))

  -- A buffer that is full is given up.
  roomy : Framer → Option (Framer × List Emission)
  unfolding lose
  roomy f = if leb max_buf (length f.buf) then lose 0 f else some (f, [])

  -- A round once the buffer has room: the bytes left to write, the framer, and the frames emitted.
  fill : List ℕ → Option (Framer × List Emission) → Option (List ℕ × Framer × List Emission)
  unfolding taken
  fill p none = none
  fill p (some (f, frames)) =
      let n = min (length p) (max_buf - length f.buf) in
      elim (taken (take n p) (f, frames)) [
        | none ↦ none
        | some (g, more) ↦ some (drop n p, g, more)
      ]

  round : Framer → List ℕ → Option (List ℕ × Framer × List Emission)
  unfolding roomy fill
  round f p = fill p (roomy f)

  -- write's loop; `none` means that the fuel ran out, here or in a pump.
  write_loop : ℕ → Framer → List ℕ → List Emission → Option (Framer × List Emission)
  unfolding round
  write_loop fuel f [] frames = some (f, frames)
  write_loop zero f (b ∷ p) frames = none
  write_loop (suc fuel) f (b ∷ p) frames = elim (round f (b ∷ p)) [
    | none ↦ none
    | some (rest, g, more) ↦ write_loop fuel g rest (frames ++ more)
  ]

  -- write: a round takes a byte at least, so as many rounds as bytes are enough.
  unfoldable pub write : List ℕ → Framer → Option (Framer × List Emission)
  unfolding write_loop
  write p f = write_loop (length p) f p []

  -- end
  unfoldable pub end : Framer → Option (Framer × List Emission)
  end f =
      pump uncompress
        (record f { over = true; begun = true; env = if f.env.lost then no_envelopes else f.env })
