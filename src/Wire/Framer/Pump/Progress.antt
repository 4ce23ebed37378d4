-- ===== src/Wire/Framer/Pump/Progress.antt =====
-- wire/framer.go: the bytes that a round of pump leaves.
use a2kit.Common.{
  ℕ, zero, suc, ◌≤◌, ◌<◌, ◌≡◌, refl, Bool, true, false, List, [], ◌∷◌, Option, none, some, arith,
  length, drop, length-drop, ap, not, ◌&&◌, ◌||◌, if◌then◌else◌, ◌==◌,
}
use a2kit.Wire.Scan.{Verdict}
use a2kit.Wire.Envelope.{Envelopes}
use a2kit.Wire.Envelope.Progress.{IsQuiet, strip-IsQuiet, strip_header-lt}
use a2kit.Wire.Framer.State.{Framer, Emission, trusted}
use a2kit.Wire.Framer.Length.{Length, invalid, partial, whole, frame_len}
use a2kit.Wire.Framer.Length.Bounds.{frame_len-whole}
use a2kit.Wire.Framer.Boundary.{envelope, resume, follows}
use a2kit.Wire.Framer.Boundary.Header.{envelope-yes}
use a2kit.Wire.Framer.Pump.{
  Round, Next, stop, go, found_envelopes, garbage, incomplete, deliver, frame_step, is_no, at_byte,
  decide, pump_step, pump_loop, finish, pump,
}

-- Of a round that began with `n` bytes: it stops with no more, or goes on with fewer, and the envelopes stay
-- quiet.
abbrev Progress : ℕ → Next → Type 0
Progress n (stop t) = (length t.rest ≤ n) × IsQuiet t.framer.env
Progress n (go t) = (length t.rest < n) × IsQuiet t.framer.env

Progress-if :
    (n : ℕ) (b : Bool) (x y : Next)
    → (b ≡ true → Progress n x)
    → Progress n y
    → Progress n (if b then x else y)
Progress-if n true x y h g = h refl
Progress-if n false x y h g = g

module _ (s : Round) (b : ℕ) (p : List ℕ) (here : s.rest ≡ b ∷ p) (q : IsQuiet s.framer.env) where
  size : length s.rest ≡ suc (length p)
  size = ap length here

  garbage-Progress : Progress (length s.rest) (garbage s)
  unfolding garbage
  garbage-Progress = (omega (arith, size, length-drop 1 s.rest), q)

  incomplete-Progress : Progress (length s.rest) (incomplete s)
  unfolding incomplete
  incomplete-Progress =
      let f = s.framer in
      let skip = (resume f.known_only s.rest (s.kept && s.start) f.ahead).0 in
      ground (arith, size, length-drop skip s.rest)

  module _ (uncompress : List ℕ → ℕ → Option (List ℕ)) where
    deliver-Progress : (n head : ℕ) → 1 ≤ n → Progress (length s.rest) (deliver uncompress s n head)
    unfolding deliver
    deliver-Progress n head h = ground (arith, size, length-drop n s.rest)

    frame_step-Progress :
        (trust : Bool) (l : Length)
        → frame_len s.framer.known_only s.rest trust ≡ l
        → Progress (length s.rest) (frame_step uncompress s l)
    unfolding frame_step
    frame_step-Progress trust invalid e = garbage-Progress
    frame_step-Progress trust (partial head) e = incomplete-Progress
    frame_step-Progress trust (whole n head) e =
        let f = s.framer in
        Progress-if (length s.rest)
          (not f.aligned && is_no (follows f.known_only f.env.on (drop n s.rest))) (garbage s)
          (deliver uncompress s n head) (λ _. garbage-Progress)
          (deliver-Progress n head (omega (arith, frame_len-whole _ s.rest trust n head e)))

    at_byte-Progress : Progress (length s.rest) (at_byte uncompress s b)
    unfolding at_byte
    at_byte-Progress =
        Progress-if (length s.rest) (b == 0) (go (record s { start = false; rest = drop 1 s.rest }))
          (frame_step uncompress s (frame_len s.framer.known_only s.rest (trusted s.framer)))
          (λ _. (omega (arith, size, length-drop 1 s.rest), q))
          (frame_step-Progress (trusted s.framer) _ refl)

    found_envelopes-Progress :
        s.framer.env.on ≡ false
        → envelope s.framer.known_only s.rest s.framer.aligned ≡ Verdict.yes
        → Progress (length s.rest) (found_envelopes s)
    unfolding found_envelopes
    found_envelopes-Progress off e =
        let h = envelope-yes _ s.rest _ e in
        let env : Envelopes = record s.framer.env { on = true } in
        (
          strip_header-lt env s.rest (q.at_rest off) (q.no_head off) h.0 h.1,
          strip-IsQuiet env s.rest refl (q.not_lost off),
        )

    decide-Progress :
        (v : Verdict)
        → s.framer.env.on ≡ false
        → envelope s.framer.known_only s.rest s.framer.aligned ≡ v
        → Progress (length s.rest) (decide uncompress s b v)
    unfolding decide
    decide-Progress Verdict.yes off e = found_envelopes-Progress off e
    decide-Progress Verdict.maybe off e =
        Progress-if (length s.rest) s.framer.over (at_byte uncompress s b) (stop s)
          (λ _. at_byte-Progress) (omega arith, q)
    decide-Progress Verdict.no off e = at_byte-Progress

    pump_step-Progress : Progress (length s.rest) (pump_step uncompress s b)
    unfolding pump_step
    pump_step-Progress =
        let f = s.framer in
        Progress-if (length s.rest) (not f.env.on && (f.aligned || not f.begun))
          (decide uncompress s b (envelope f.known_only s.rest f.aligned)) (at_byte uncompress s b)
          (λ h. decide-Progress (envelope f.known_only s.rest f.aligned) (ground arith) refl)
          at_byte-Progress

-- What pump's loop gives back for a round that began with `n` bytes.
abbrev Ends : ℕ → Option Round → Type 0
Ends n none = ⊥
Ends n (some t) = (length t.rest ≤ n) × IsQuiet t.framer.env

Ends-mono : (m n : ℕ) (o : Option Round) → m ≤ n → Ends m o → Ends n o
Ends-mono m n none h e = e
Ends-mono m n (some t) h e = (omega arith, e.1)

-- A pump that ended: its framer, quiet, with no more bytes in its buffer than before.
pub record Pumped (f : Framer) (o : Option (Framer × List Emission)) : Type 0 where
  pub framer : Framer
  pub frames : List Emission
  pub result : o ≡ some (framer, frames)
  pub quiet : IsQuiet framer.env
  pub no_longer : length framer.buf ≤ length f.buf

module _ (uncompress : List ℕ → ℕ → Option (List ℕ)) where
  -- The rest of the loop, after a round.
  next-Ends :
      (fuel n : ℕ) (x : Next)
      → ((t : Round)
          → length t.rest ≤ fuel
          → IsQuiet t.framer.env
          → Ends (length t.rest) (pump_loop uncompress fuel t t.rest))
      → n ≤ suc fuel
      → Progress n x
      → Ends n (elim x [ stop t ↦ some t | go t ↦ pump_loop uncompress fuel t t.rest ])
  next-Ends fuel n (stop t) rec h g = g
  next-Ends fuel n (go t) rec h g =
      Ends-mono (length t.rest) n _ (omega arith) (rec t (omega arith) g.1)

  pump_loop-Ends :
      (fuel : ℕ) (s : Round) (p : List ℕ)
      → s.rest ≡ p
      → length p ≤ fuel
      → IsQuiet s.framer.env
      → Ends (length s.rest) (pump_loop uncompress fuel s p)
  unfolding pump_loop
  pump_loop-Ends fuel s [] here h q = (omega arith, q)
  pump_loop-Ends zero s (b ∷ p) here h q = absurd (omega arith)
  pump_loop-Ends (suc fuel) s (b ∷ p) here h q =
      next-Ends fuel (length s.rest) (pump_step uncompress s b)
        (λ t l r. pump_loop-Ends fuel t t.rest refl l r) (omega (arith, ap length here))
        (pump_step-Progress s b p here q uncompress)

  -- pump always ends: for a quiet framer its loop never runs out of rounds, it leaves the framer
  -- quiet, and the buffer does not grow.
  pub pump-Pumped : (f : Framer) → IsQuiet f.env → Pumped f (pump uncompress f)
  unfolding pump
  pump-Pumped f q = pumped _ (pump_loop-Ends _ _ f.buf refl (omega arith) q)
    where
      pumped : (o : Option Round) → Ends (length f.buf) o → Pumped f (finish uncompress o)
      pumped none e = absurd e
      pumped (some t) e = record {
        framer = record t.framer { buf = t.rest };
        frames = t.frames;
        result = refl;
        quiet = e.1;
        no_longer = e.0;
      }
