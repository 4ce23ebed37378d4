-- ===== src/Wire/Decoder/Reassembly/Place.antt =====
-- wire/decoder.go: hold and place.
use mathlib.Core.Path.{subst}
use a2kit.Common.{
  ℕ, zero, suc, ◌+◌, ◌≤◌, ◌≡◌, inl, inr, refl, ◌∙◌, ap, sym, Bool, true, false, not, ◌||◌, List, [],
  ◌∷◌, ◌++◌, Option, none, some, arith, length, length-append, drop, sub32, add32, ltb, if_cases,
  ◌==◌,
}
use a2kit.Common.Results.{◌>>=◌}
use a2kit.Wire.Decoder.State.{Piece, Stream, after, stale, max_held, max_held_bytes}
use a2kit.Wire.Decoder.Table.{Focus}
use a2kit.Wire.Decoder.Reassembly.{
  split_at, retransmit, hold, deliver, release, skip, skip_pieces, held_or, place_loop, place,
}
use a2kit.Wire.Decoder.Reassembly.Ran.{Ran, total, deliver-Ran}
use a2kit.Wire.Decoder.Reassembly.Held.{
  IsHeld, Fine, Moved, after-same, release-Fine, skip-Moved, skip_while-Fine,
}

total-append : (xs ys : List Piece) → total (xs ++ ys) ≡ total xs + total ys
total-append [] ys = omega arith
total-append (pc ∷ xs) ys = omega (arith, total-append xs ys)

-- The two parts of the pieces are the pieces.
split_at-append :
    (seq : ℕ) (held : List Piece) → (split_at seq held).0 ++ (split_at seq held).1 ≡ held
unfolding split_at
split_at-append seq [] = refl
split_at-append seq (q ∷ held) = ground (arith, split_at-append seq held)

-- A segment that hold takes leaves the stream within its limits, and one that it refuses changes
-- nothing.
abbrev Holds : Focus → Bool × Focus → Type 0
Holds f (true, g) = IsHeld g.st
Holds f (false, g) = g ≡ f

inserted-IsHeld :
    (before behind : List Piece) (pc : Piece) (st : Stream)
    → IsHeld st
    → before ++ behind ≡ st.held
    → (length st.held == max_held || ltb max_held_bytes (st.held_bytes + length pc.bytes)) ≡ false
    → IsHeld
        (record st { held = before ++ (pc ∷ behind); held_bytes = st.held_bytes + length pc.bytes })
inserted-IsHeld before behind pc st s e fits =
    let l : length st.held ≡ length before + length behind =
      ap length (sym e) ∙ length-append before behind in
    let t : total st.held ≡ total before + total behind =
      ap total (sym e) ∙ total-append before behind in
    let l' = length-append before (pc ∷ behind) in
    let t' = total-append before (pc ∷ behind) in
    record {
      quiet = s.quiet;
      few = ground (arith, l, l', s.few);
      counted = omega (arith, t, t', s.counted);
      room = ground (arith, t, t', s.counted);
    }

hold-Holds : (seq t : ℕ) (p : List ℕ) (f : Focus) → IsHeld f.st → Holds f (hold seq t p f)
unfolding hold
hold-Holds seq t p f s =
    if_cases (Holds f) (retransmit seq p before) (true, f) _ (λ _. s)
      λ _.
        if_cases (Holds f)
          (length f.st.held == max_held || ltb max_held_bytes (f.st.held_bytes + length p))
          (false, f) _ (λ _. refl)
          λ fits.
            inserted-IsHeld before behind (record { seq = seq; t = t; bytes = p }) f.st s
              (split_at-append seq f.st.held) fits
  where
    before : List Piece
    before = (split_at seq f.st.held).0

    behind : List Piece
    behind = (split_at seq f.st.held).1

-- A step of place that returned, with the stream within its limits
abbrev Placed : Option Focus → Type 0
Placed none = ⊥
Placed (some g) = IsHeld g.st

Fine-Placed : (n : ℕ) (o : Option Focus) → Fine n o → Placed o
Fine-Placed n none h = h
Fine-Placed n (some g) h = h.0

module _ (uncompress : List ℕ → ℕ → Option (List ℕ)) where
  -- The rest of a delivery, after the framer's call
  released-Placed :
      (st : Stream) (o : Option Focus) → IsHeld st → Ran st o → Placed (o >>= release uncompress)
  released-Placed st none s h = h
  released-Placed st (some g) s h = Fine-Placed _ _ (
      release-Fine uncompress g (record {
        quiet = h.0;
        few = subst (λ held. length held ≤ max_held) (sym h.1) s.few;
        counted = h.2 ∙ s.counted ∙ ap total (sym h.1);
        room = subst (λ held. total held ≤ max_held_bytes) (sym h.1) s.room;
      }))

  delivered-Placed :
      (p : List ℕ) (t : ℕ) (f : Focus)
      → IsHeld f.st
      → Placed (deliver uncompress p t f >>= release uncompress)
  delivered-Placed p t f s =
      released-Placed (record f.st { next = add32 f.st.next (length p) }) _
        (record { quiet = s.quiet; few = s.few; counted = s.counted; room = s.room })
        (deliver-Ran uncompress p t f s.quiet)

  module _ (seq : ℕ) (p : List ℕ) (t : ℕ) where
    -- A round at a segment that is not early
    place_loop-due :
        (k : ℕ) (f : Focus)
        → after seq f.st.next ≡ false
        → IsHeld f.st
        → Placed (place_loop uncompress (suc k) seq p t f)
    unfolding place_loop
    place_loop-due k f due s =
        if_cases Placed (not (after (add32 seq (length p)) f.st.next)) (some f) _ (λ _. s)
          λ _.
            if_cases Placed (not (after seq f.st.next))
              (deliver uncompress (drop (sub32 f.st.next seq) p) t f >>= release uncompress) _
              (λ _. delivered-Placed (drop (sub32 f.st.next seq) p) t f s) (λ e. cc)

    again-Placed :
        (k n : ℕ) (o : Option Focus)
        → ((g : Focus)
            → length g.st.held + 2 ≤ k
            → IsHeld g.st
            → Placed (place_loop uncompress k seq p t g))
        → n + 1 ≤ k
        → Moved uncompress seq n o
        → Placed (o >>= place_loop uncompress k seq p t)
    again-Placed k n none rec l h = h
    again-Placed k n (some g) rec l (s, inl fewer) = rec g (omega arith) s
    again-Placed zero n (some g) rec l (s, inr here) = absurd (omega arith)
    again-Placed (suc k) n (some g) rec l (s, inr here) =
        place_loop-due k g (rw here (after-same seq)) s

    held_or-Placed :
        (f : Focus) (again : Focus → Option Focus) (r : Bool × Focus)
        → Placed (again f)
        → Holds f r
        → Placed (held_or uncompress again r)
    unfolding held_or
    held_or-Placed f again (true, g) a h = h
    held_or-Placed f again (false, g) a h = subst (λ x. Placed (again x)) (sym h) a

    place_loop-Placed :
        (k : ℕ) (f : Focus)
        → length f.st.held + 2 ≤ k
        → IsHeld f.st
        → Placed (place_loop uncompress k seq p t f)
    unfolding place_loop
    place_loop-Placed zero f l s = absurd (omega arith)
    place_loop-Placed (suc k) f l s =
        if_cases Placed (not (after (add32 seq (length p)) f.st.next)) (some f) _ (λ _. s)
          λ _.
            if_cases Placed (not (after seq f.st.next))
              (deliver uncompress (drop (sub32 f.st.next seq) p) t f >>= release uncompress) _
              (λ _. delivered-Placed (drop (sub32 f.st.next seq) p) t f s)
              λ _.
                held_or-Placed f _ (hold seq t p f)
                  (again-Placed k (length f.st.held) (skip uncompress seq f)
                    (λ g b r. place_loop-Placed k g b r) (omega arith)
                    (skip-Moved uncompress seq f f.st.held refl s))
                  (hold-Holds seq t p f s)

    skipped-Placed :
        (n : ℕ) (o : Option Focus)
        → Fine n o
        → Placed (o >>= λ g. place_loop uncompress (length g.st.held + 2) seq p t g)
    skipped-Placed n none h = h
    skipped-Placed n (some g) h = place_loop-Placed (length g.st.held + 2) g (omega arith) h.0

    place-Placed : (f : Focus) → IsHeld f.st → Placed (place uncompress seq p t f)
    unfolding place skip_pieces
    place-Placed f s = skipped-Placed (length f.st.held) _ (
        skip_while-Fine uncompress (λ held. stale held t) (length f.st.held) f.st.held f refl
          (omega arith) s)

  -- Placing a segment always returns, for a stream whose framer is quiet and that holds at most 64
  -- pieces and 256 KiB, with heldBytes their size, whatever the sequence number, the bytes, the time
  -- and the decompressor; and the stream is so again.
  pub place-returns :
      (seq : ℕ) (p : List ℕ) (t : ℕ) (f : Focus)
      → IsHeld f.st
      → (g : Focus) × (place uncompress seq p t f ≡ some g) × IsHeld g.st
  place-returns seq p t f s = placed (place uncompress seq p t f) (place-Placed seq p t f s)
    where
      placed : (o : Option Focus) → Placed o → (g : Focus) × (o ≡ some g) × IsHeld g.st
      placed none h = absurd h
      placed (some g) h = (g, refl, h)
