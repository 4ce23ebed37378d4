-- ===== src/Wire/Framer/Write/Frames.antt =====
-- wire/framer.go: write on whole frames.
use a2kit.Common.{
  ℕ, ◌≤◌, ◌≡◌, ◌∙◌, refl, ap, min, false, List, [], ◌∷◌, All, map, Option, none, some, arith,
  length, drop, take, drop-all, take-all, ◌<◌, length-append,
}
use a2kit.Wire.Framer.State.{Framer, Emission, max_buf}
use a2kit.Wire.Framer.Length.Encoded.{Message, IsSent, encode, prefix, body}
use a2kit.Wire.Framer.Pump.Frames.{settled, plain, encode_all, pump-frames}
use a2kit.Wire.Framer.Write.{taken, fill, round, write_loop, write}

-- A settled framer that has parsed all it was given.
abbrev pub empty : Framer → Framer
empty f = record (settled f) { buf = []; waiting = false }

module _ (uncompress : List ℕ → ℕ → Option (List ℕ)) (f : Framer) (ms : List Message)
    (sent : All (IsSent f.known_only) ms) (small : length (encode_all ms) ≤ max_buf) where
  taken-frames : taken uncompress (encode_all ms) (empty f, []) ≡ some (empty f, map plain ms)
  unfolding taken
  taken-frames =
      ap (λ o. elim o [ none ↦ none | some (g, more) ↦ some (g, more) ])
        (pump-frames uncompress (record f { waiting = false }) ms sent)

  round-frames : round uncompress (empty f) (encode_all ms) ≡ some ([], empty f, map plain ms)
  unfolding round fill
  round-frames =
      ap (λ n. upto n (taken uncompress (take n (encode_all ms)) (empty f, []))) all
      ∙ ap (λ p. upto (length (encode_all ms)) (taken uncompress p (empty f, [])))
          (take-all (encode_all ms))
      ∙ ap (upto (length (encode_all ms))) taken-frames
      ∙ ap (λ p. some (p, empty f, map plain ms)) (drop-all (encode_all ms))
    where
      all : min (length (encode_all ms)) max_buf ≡ length (encode_all ms)
      all = omega arith

      upto : ℕ → Option (Framer × List Emission) → Option (List ℕ × Framer × List Emission)
      upto n o = elim o [ none ↦ none | some (g, more) ↦ some (drop n (encode_all ms), g, more) ]

-- A write that one round takes whole.
write_loop-once :
    (uncompress : List ℕ → ℕ → Option (List ℕ)) (f g : Framer) (p : List ℕ) (more : List Emission)
    → 0 < length p
    → round uncompress f p ≡ some ([], g, more)
    → write_loop uncompress (length p) f p [] ≡ some (g, more)
unfolding write_loop
write_loop-once uncompress f g [] more h e = absurd (omega arith)
write_loop-once uncompress f g (b ∷ p) more h e =
    ap
      (λ o. elim o [
        | none ↦ none
        | some (rest, x, frames) ↦ write_loop uncompress (length p) x rest frames
      ])
      e

-- One write of whole frames, no longer than the buffer in all, to a settled framer with an empty
-- buffer: each body is emitted once, in order, with no flags, and the framer is as it was. The
-- frames are of known or plausible opcodes, hold a payload, and are no bundles.
pub write-frames :
    (uncompress : List ℕ → ℕ → Option (List ℕ)) (f : Framer) (ms : List Message)
    → All (IsSent f.known_only) ms
    → length (encode_all ms) ≤ max_buf
    → write uncompress (encode_all ms) (empty f) ≡ some (empty f, map plain ms)
unfolding write write_loop
write-frames uncompress f [] sent small = refl
write-frames uncompress f (m ∷ ms) sent small =
    write_loop-once uncompress (empty f) (empty f) (encode_all (m ∷ ms)) _
      (omega (arith, length-append (encode m) (encode_all ms), length-append (prefix m) (body m)))
      (round-frames uncompress f (m ∷ ms) sent small)
