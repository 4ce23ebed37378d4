-- ===== src/Wire/Framer/Pump/Frames.antt =====
-- wire/framer.go: pump on whole frames.
use a2kit.Common.{
  ℕ, zero, suc, ◌+◌, ◌-◌, take-length_append, drop-length_append, ◌≤◌, ◌≡◌, ◌≢◌, ◌∙◌, refl, ap, sym,
  Bool, true, false, List, [], ◌∷◌, ◌++◌, Option, some, All, map, append-nil, append_assoc,
  if_cases, ◌==◌, arith, length, drop, take, length-append,
}
use a2kit.Wire.Scan.{Verdict}
use a2kit.Wire.Envelope.{no_envelopes}
use a2kit.Wire.Framer.State.{Framer, Emission}
use a2kit.Wire.Framer.Length.{frame_len, trim_padding}
use a2kit.Wire.Framer.Length.Encoded.{
  Message, body, prefix, encode, IsSent, begins-encode, drop-encode, length-encode,
  frame_len-encode, encode-ne_zero, size,
}
use a2kit.Wire.Varint.Encoding.{length-leb128}
use a2kit.Wire.Framer.Bundle.{give}
use a2kit.Wire.Framer.Bundle.Plain.{parse-plain}
use a2kit.Wire.Framer.Boundary.{envelope}
use a2kit.Wire.Framer.Pump.{
  Round, stop, go, deliver, frame_step, pump_step, pump_loop, finish, pump,
}

-- A framer on a frame boundary of a stream without envelopes, past its probation.
abbrev pub settled : Framer → Framer
settled f = record f {
  begun = true;
  aligned = true;
  probation = 0;
  skipped = 0;
  resync = false;
  env = no_envelopes;
}

abbrev pub plain : Message → Emission
plain m = record { body = body m; flags = 0; trusted = true }

module _ (known_only : Bool) (m : Message) (sent : IsSent known_only m) (more : List ℕ) where
  trim-encode : trim_padding (encode m ++ more) ≡ encode m ++ more
  unfolding trim_padding
  trim-encode = let (c, rest, e, n) = encode-ne_zero m in rw e (ground arith)

  four_bytes : 4 ≤ length (encode m ++ more)
  four_bytes = omega (arith, length-encode known_only m sent more, length-leb128 4 (size m))

  -- No envelope is seen where a frame begins.
  envelope-encode :
      (after_frame : Bool) → envelope known_only (encode m ++ more) after_frame ≡ Verdict.no
  unfolding envelope
  envelope-encode after_frame =
      rw (trim-encode, begins-encode known_only m sent more) (ground (arith, four_bytes))

-- A round of pump's loop on a settled framer.
abbrev at : Bool → Bool → Framer → List ℕ → List Emission → Round
at kept start f rest frames = record {
  kept = kept;
  start = start;
  rest = rest;
  framer = settled f;
  frames = frames;
}

pump_loop-go :
    (uncompress : List ℕ → ℕ → Option (List ℕ)) (fuel : ℕ) (s t : Round) (p : List ℕ) (b : ℕ)
    (q : List ℕ)
    → p ≡ b ∷ q
    → pump_step uncompress s b ≡ go t
    → pump_loop uncompress (suc fuel) s p ≡ pump_loop uncompress fuel t t.rest
unfolding pump_loop
pump_loop-go uncompress fuel s t p b q e step =
    ap (pump_loop uncompress (suc fuel) s) e
    ∙ ap (λ x. elim x [ stop u ↦ some u | go u ↦ pump_loop uncompress fuel u u.rest ]) step

module _ (uncompress : List ℕ → ℕ → Option (List ℕ)) (kept start : Bool) (f : Framer) where
  module _ (m : Message) (sent : IsSent f.known_only m) (more : List ℕ)
      (frames : List Emission) where
    abbrev here : Round
    here = at kept start f (encode m ++ more) frames

    abbrev there : Round
    there = at kept false f more (frames ++ (plain m ∷ []))

    take-encode :
        take (length (prefix m) + length (body m) - length (prefix m)) (body m ++ more) ≡ body m
    take-encode =
        rw (cancel (length (prefix m)) (length (body m))) (take-length_append (body m) more)
      where
        cancel : (a b : ℕ) → a + b - a ≡ b
        cancel a b = omega arith

    drop-whole : drop (length (prefix m) + length (body m)) (encode m ++ more) ≡ more
    drop-whole = rw (sym (length-append (prefix m) (body m))) (drop-length_append (encode m) more)

    deliver-encode :
        deliver uncompress here (length (prefix m) + length (body m)) (length (prefix m)) ≡ go there
    unfolding deliver give
    deliver-encode =
        rw
          (
            drop-whole,
            drop-encode f.known_only m sent more,
            take-encode,
            parse-plain uncompress f.known_only true 3 0 m.op0 m.op1 (m.first ∷ m.rest) 0
                (record { resync = false; frames = frames }) sent.no_bundle,
          )
          refl

    frame_step-encode :
        frame_step uncompress here (frame_len f.known_only (encode m ++ more) true) ≡ go there
    unfolding frame_step
    frame_step-encode = rw (frame_len-encode f.known_only m sent more) deliver-encode

    pump_step-encode : (b : ℕ) → b ≢ 0 → pump_step uncompress here b ≡ go there
    unfolding pump_step
    pump_step-encode b h = rw (envelope-encode f.known_only m sent more true) (
        if_cases (λ x. x ≡ go there) (b == 0)
          (go (record here { start = false; rest = drop 1 (encode m ++ more) })) _
          (λ e. absurd (ground arith)) λ _. frame_step-encode)

    pump_loop-encode :
        (fuel : ℕ)
        → pump_loop uncompress (suc fuel) here (encode m ++ more)
          ≡ pump_loop uncompress fuel there more
    pump_loop-encode fuel =
        let (c, rest, e, h) = encode-ne_zero m in
        pump_loop-go uncompress fuel here there (encode m ++ more) c (rest ++ more)
          (ap (λ p. p ++ more) e) (pump_step-encode c h)

abbrev pub encode_all : List Message → List ℕ
encode_all [] = []
encode_all (m ∷ ms) = encode m ++ encode_all ms

module _ (uncompress : List ℕ → ℕ → Option (List ℕ)) where
  finish-frames :
      (fuel : ℕ) (kept start : Bool) (f : Framer) (ms : List Message) (frames : List Emission)
      → All (IsSent f.known_only) ms
      → length (encode_all ms) ≤ fuel
      → finish uncompress
          (pump_loop uncompress fuel (at kept start f (encode_all ms) frames) (encode_all ms))
        ≡ some (record (settled f) { buf = [] }, frames ++ map plain ms)
  unfolding finish pump_loop
  finish-frames fuel kept start f [] frames sent h =
      ap (λ x. some (record (settled f) { buf = [] }, x)) (sym (append-nil frames))
  finish-frames zero kept start f (m ∷ ms) frames sent h =
      absurd (omega (arith, four_bytes f.known_only m sent.0 (encode_all ms)))
  finish-frames (suc fuel) kept start f (m ∷ ms) frames sent h =
      ap (finish uncompress)
        (pump_loop-encode uncompress kept start f m sent.0 (encode_all ms) frames fuel)
      ∙ finish-frames fuel kept false f ms (frames ++ (plain m ∷ [])) sent.1 (
          omega (
            arith,
            length-append (encode m) (encode_all ms),
            length-append (encode m) [],
            four_bytes f.known_only m sent.0 [],
          ))
      ∙ ap (λ x. some (record (settled f) { buf = [] }, x))
          (append_assoc frames (plain m ∷ []) (map plain ms))

  -- A settled framer that holds whole frames emits each body once, in order and with no flags, and
  -- is settled again with nothing left. The frames are of known or plausible opcodes, hold a
  -- payload, and are no bundles.
  pub pump-frames :
      (f : Framer) (ms : List Message)
      → All (IsSent f.known_only) ms
      → pump uncompress (record (settled f) { buf = encode_all ms })
        ≡ some (record (settled f) { buf = []; waiting = false }, map plain ms)
  unfolding pump
  pump-frames f ms sent =
      finish-frames (length (encode_all ms)) f.waiting true
        (record f { waiting = false; buf = encode_all ms }) ms [] sent (omega arith)
