-- ===== src/Wire/Framer/Write/Total.antt =====
-- wire/framer.go: the rounds of write, and the pumps of lose and end.
use a2kit.Common.{
  ap, ℕ, zero, suc, ◌-◌, ◌≤◌, ◌<◌, ◌≡◌, refl, Bool, true, false, List, [], ◌∷◌, ◌++◌, Option, none,
  some, arith, length, drop, take, length-drop, leb, min, if◌then◌else◌, if_cases,
}
use a2kit.Wire.Scan.{Scan, new_scan}
use a2kit.Wire.Envelope.{no_envelopes, skip}
use a2kit.Wire.Envelope.Progress.{IsQuiet, strip-IsQuiet}
use a2kit.Wire.Framer.State.{Framer, Emission, max_buf}
use a2kit.Wire.Framer.Pump.{pump, strip_at}
use a2kit.Wire.Framer.Pump.Progress.{Pumped, pump-Pumped}
use a2kit.Wire.Framer.Write.{
  strip_from, refound, refind, unwrapped, lost, lose, pump_ready, taken, roomy, fill, round,
  write_loop, write, end,
}

-- A call that returned, with a framer that is quiet.
abbrev Returns : Option (Framer × List Emission) → Type 0
Returns none = ⊥
Returns (some (f, frames)) = IsQuiet f.env

Pumped-Returns : (f : Framer) (o : Option (Framer × List Emission)) → Pumped f o → Returns o
Pumped-Returns f o p = rw p.result p.quiet

strip_from-IsQuiet :
    (from : ℕ) (f : Framer) → f.env.on ≡ true → f.env.lost ≡ false → IsQuiet (strip_from from f).env
unfolding strip_from strip_at
strip_from-IsQuiet from f o l = strip-IsQuiet f.env (drop from f.buf) o l

refound-IsQuiet :
    (f : Framer) (o : Option ℕ) (s : Scan)
    → f.env.lost ≡ true
    → IsQuiet f.env
    → IsQuiet (refound f (o, s)).1.env
unfolding refound
refound-IsQuiet f (some h) s l q =
    strip_from-IsQuiet 0
      (record f { env = record f.env { lost = false; left = h; search = new_scan } }) (ground arith)
      refl
refound-IsQuiet f none s l q = ground arith

refind-IsQuiet : (f : Framer) → f.env.lost ≡ true → IsQuiet f.env → IsQuiet (refind f).1.env
unfolding refind
refind-IsQuiet f l q = refound-IsQuiet f _ _ l q

abbrev QuietPair : Bool × Framer → Type 0
QuietPair r = IsQuiet r.1.env

unwrapped-IsQuiet : (from : ℕ) (f : Framer) → IsQuiet f.env → QuietPair (unwrapped from f)
unfolding unwrapped
unwrapped-IsQuiet from f q =
    if_cases QuietPair f.env.lost (refind f)
      (if f.env.on then (true, strip_from from f) else (true, f)) (λ l. refind-IsQuiet f l q)
      λ l.
        if_cases QuietPair f.env.on (true, strip_from from f) (true, f)
          (λ o. strip_from-IsQuiet from f o l) (λ _. q)

abbrev Answered : Option (Framer × List Emission) → Type 0
Answered o = (g : Framer) × (frames : List Emission) × (o ≡ some (g, frames)) × IsQuiet g.env

-- What a round of write leaves: a quiet framer.
module _ (uncompress : List ℕ → ℕ → Option (List ℕ)) where
  lost-IsQuiet :
      (n : ℕ) (f : Framer) (frames : List Emission)
      → IsQuiet f.env
      → IsQuiet (lost uncompress n (f, frames)).0.env
  unfolding lost skip
  lost-IsQuiet n f frames q = ground arith

  abbrev Emptied : Option (Framer × List Emission) → Type 0
  Emptied none = ⊥
  Emptied (some (f, frames)) = IsQuiet f.env × (length f.buf < max_buf)

  abbrev Cleared : Option (Framer × List Emission) → Type 0
  Cleared none = ⊥
  Cleared (some (f, frames)) = IsQuiet f.env × (f.buf ≡ [])

  lose-Cleared : (n : ℕ) (f : Framer) → IsQuiet f.env → Cleared (lose uncompress n f)
  unfolding lose
  lose-Cleared n f q =
      if_cases Cleared f.begun (some (lost uncompress n (f, []))) _ (λ _. done (f, []) q)
        λ _. rw pumped.result (done (pumped.framer, pumped.frames) pumped.quiet)
    where
      pumped : Pumped (record f { begun = true }) (pump uncompress (record f { begun = true }))
      pumped = pump-Pumped uncompress (record f { begun = true }) q

      done : (r : Framer × List Emission) → IsQuiet r.0.env → Cleared (some (lost uncompress n r))
      done (g, frames) h = (lost-IsQuiet n g frames h, unfold lost in refl)

  Cleared-Emptied : (o : Option (Framer × List Emission)) → Cleared o → Emptied o
  Cleared-Emptied none h = h
  Cleared-Emptied (some (f, frames)) h = (h.0, omega (arith, ap length h.1))

  roomy-Emptied : (f : Framer) → IsQuiet f.env → Emptied (roomy uncompress f)
  unfolding roomy
  roomy-Emptied f q =
      if_cases Emptied (leb max_buf (length f.buf)) (lose uncompress 0 f) (some (f, []))
        (λ _. Cleared-Emptied _ (lose-Cleared 0 f q)) (λ h. (q, ground arith))

  pump_ready-Returns :
      (frames : List Emission) (r : Bool × Framer)
      → QuietPair r
      → Returns (pump_ready uncompress frames r)
  unfolding pump_ready
  pump_ready-Returns frames (false, f) q = q
  pump_ready-Returns frames (true, f) q =
      let p = pump-Pumped uncompress f q in rw (p.result, Returns) p.quiet

  taken-Returns :
      (p : List ℕ) (r : Framer × List Emission) → IsQuiet r.0.env → Returns (taken uncompress p r)
  unfolding taken
  taken-Returns p (f, frames) q =
      pump_ready-Returns frames _
        (unwrapped-IsQuiet (length f.buf) (record f { buf = f.buf ++ p }) q)

  -- A round over `n` bytes leaves fewer to write.
  abbrev Rounds : ℕ → Option (List ℕ × Framer × List Emission) → Type 0
  Rounds n none = ⊥
  Rounds n (some (rest, f, frames)) = (length rest < n) × IsQuiet f.env

  part-Rounds :
      (n : ℕ) (rest : List ℕ) (o : Option (Framer × List Emission))
      → length rest < n
      → Returns o
      → Rounds n (elim o [ none ↦ none | some (g, more) ↦ some (rest, g, more) ])
  part-Rounds n rest none l h = h
  part-Rounds n rest (some (g, more)) l h = (l, h)

  fill-Rounds :
      (p : List ℕ) (o : Option (Framer × List Emission))
      → 0 < length p
      → Emptied o
      → Rounds (length p) (fill uncompress p o)
  unfolding fill
  fill-Rounds p none l h = h
  fill-Rounds p (some (f, frames)) l h =
      let n = min (length p) (max_buf - length f.buf) in
      part-Rounds (length p) (drop n p) (taken uncompress (take n p) (f, frames))
        (omega (arith, length-drop n p)) (taken-Returns (take n p) (f, frames) h.0)

  round-Rounds :
      (f : Framer) (p : List ℕ)
      → 0 < length p
      → IsQuiet f.env
      → Rounds (length p) (round uncompress f p)
  unfolding round
  round-Rounds f p l q = fill-Rounds p (roomy uncompress f) l (roomy-Emptied f q)

  more-Returns :
      (fuel n : ℕ) (frames : List Emission) (o : Option (List ℕ × Framer × List Emission))
      → ((rest : List ℕ) (g : Framer) (more : List Emission)
          → length rest ≤ fuel
          → IsQuiet g.env
          → Returns (write_loop uncompress fuel g rest (frames ++ more)))
      → n ≤ suc fuel
      → Rounds n o
      → Returns (elim o [
        | none ↦ none
        | some (rest, g, more) ↦ write_loop uncompress fuel g rest (frames ++ more)
      ])
  more-Returns fuel n frames none rec h r = r
  more-Returns fuel n frames (some (rest, g, more)) rec h r = rec rest g more (omega arith) r.1

  write_loop-Returns :
      (fuel : ℕ) (f : Framer) (p : List ℕ) (frames : List Emission)
      → length p ≤ fuel
      → IsQuiet f.env
      → Returns (write_loop uncompress fuel f p frames)
  unfolding write_loop
  write_loop-Returns fuel f [] frames h q = q
  write_loop-Returns zero f (b ∷ p) frames h q = absurd (omega arith)
  write_loop-Returns (suc fuel) f (b ∷ p) frames h q =
      more-Returns fuel (length (b ∷ p)) frames (round uncompress f (b ∷ p))
        (λ rest g more l r. write_loop-Returns fuel g rest (frames ++ more) l r) (omega arith)
        (round-Rounds f (b ∷ p) (omega arith) q)

  written : (o : Option (Framer × List Emission)) → Returns o → Answered o
  written none h = absurd h
  written (some (g, frames)) h = (g, frames, refl, h)

  -- A write returns for every framer that is quiet and any bytes, whatever the decompressor answers,
  -- and leaves the framer quiet: a stream out of envelopes has no header or body begun.
  pub write-returns :
      (p : List ℕ) (f : Framer)
      → IsQuiet f.env
      → (g : Framer) × (frames : List Emission) × (write uncompress p f ≡ some (g, frames))
        × IsQuiet g.env
  unfolding write
  write-returns p f q =
      written (write uncompress p f) (write_loop-Returns (length p) f p [] (omega arith) q)

  -- Giving up any number of bytes returns for every framer that is quiet, whatever the decompressor
  -- answers, and leaves it quiet, with an empty buffer.
  pub lose-returns :
      (n : ℕ) (f : Framer)
      → IsQuiet f.env
      → (g : Framer) × (frames : List Emission) × (lose uncompress n f ≡ some (g, frames))
        × IsQuiet g.env
        × (g.buf ≡ [])
  lose-returns n f q = cleared (lose uncompress n f) (lose-Cleared n f q)
    where
      cleared :
          (o : Option (Framer × List Emission))
          → Cleared o
          → (g : Framer) × (frames : List Emission) × (o ≡ some (g, frames))
            × IsQuiet g.env
            × (g.buf ≡ [])
      cleared none h = absurd h
      cleared (some (g, frames)) h = (g, frames, refl, h.0, h.1)

  -- The end of a stream returns for every framer that is quiet, whatever the decompressor answers.
  pub end-returns :
      (f : Framer)
      → IsQuiet f.env
      → (g : Framer) × (frames : List Emission) × (end uncompress f ≡ some (g, frames))
        × IsQuiet g.env
  unfolding end
  end-returns f q =
      let g : Framer = record f {
        over = true;
        begun = true;
        env = if f.env.lost then no_envelopes else f.env;
      } in
      let p = pump-Pumped uncompress g (ground arith) in
      written (pump uncompress g) (rw p.result p.quiet)
