-- ===== src/Wire/Decoder/Reassembly/Others.antt =====
-- wire/decoder.go: a stream's bytes put in order, beside the streams that stay in the table.
use a2kit.Common.{
  ℕ, zero, suc, ◌+◌, ◌-◌, Bool, true, false, not, ◌&&◌, ◌||◌, List, [], ◌∷◌, Option, none, some,
  if_cases, ◌==◌, length, drop, sub32, add32, ltb,
}
use a2kit.Common.Results.{◌>>=◌}
use a2kit.Wire.Framer.State.{Framer, Emission}
use a2kit.Wire.Framer.Write.{write, lose}
use a2kit.Wire.Decoder.State.{Key, Piece, after, stale, tls_like, max_held, max_held_bytes}
use a2kit.Wire.Decoder.Table.{Focus}
use a2kit.Wire.Decoder.Lock.Locking.{Others}
use a2kit.Wire.Decoder.Lock.Others.{emit_all-Others}
use a2kit.Wire.Decoder.Reassembly.{
  split_at, retransmit, hold, framed, take, deliver, release_loop, release, gap_end, skip,
  skip_while, skip_pieces, held_or, place_loop, place,
}

module _ (q : Key) (R : Option Key → Type 0) (r0 : R none) (rq : R (some q)) where
  -- What a step leaves beside its stream, if it returns
  abbrev pub IfOthers : Option Focus → Type 0
  IfOthers none = Unit
  IfOthers (some g) = Others q R r0 rq g

  pub bind-IfOthers :
      (o : Option Focus) (k : Focus → Option Focus)
      → IfOthers o
      → ((g : Focus) → Others q R r0 rq g → IfOthers (k g))
      → IfOthers (o >>= k)
  bind-IfOthers none k h f = tt
  bind-IfOthers (some g) k h f = f g h

  hold-Others :
      (seq t : ℕ) (p : List ℕ) (f : Focus)
      → Others q R r0 rq f
      → Others q R r0 rq (hold seq t p f).1
  unfolding hold
  hold-Others seq t p f h =
      let P : Bool × Focus → Type 0 = λ (r : Bool × Focus). Others q R r0 rq r.1 in
      if_cases P (retransmit seq p (split_at seq f.st.held).0) (true, f) _ (λ _. h)
        λ _.
          if_cases P
            (length f.st.held == max_held || ltb max_held_bytes (f.st.held_bytes + length p))
            (false, f) _ (λ _. h) λ _. h

  module _ (uncompress : List ℕ → ℕ → Option (List ℕ)) where
    pub framed-IfOthers :
        (f : Focus) (o : Option (Framer × List Emission))
        → Others q R r0 rq f
        → IfOthers (o >>= framed uncompress f)
    unfolding framed
    framed-IfOthers f none h = tt
    framed-IfOthers f (some (fr, es)) h =
        emit_all-Others q R r0 rq es (record f { st = record f.st { fr = fr } }) h

    pub take-IfOthers :
        (p : List ℕ) (t : ℕ) (f : Focus) → Others q R r0 rq f → IfOthers (take uncompress p t f)
    unfolding take
    take-IfOthers p t f h =
        let g : Focus = record f { st = record f.st { at = t } } in
        if_cases IfOthers (not f.d.config.parse_tls && f.st.dir == 0 && tls_like p) _ _
          (λ _. framed-IfOthers g (lose uncompress (length p) g.st.fr) h)
          λ _. framed-IfOthers g (write uncompress p g.st.fr) h

    deliver-IfOthers :
        (p : List ℕ) (t : ℕ) (f : Focus) → Others q R r0 rq f → IfOthers (deliver uncompress p t f)
    unfolding deliver
    deliver-IfOthers p t f h =
        take-IfOthers p t (record f { st = record f.st { next = add32 f.st.next (length p) } }) h

    release_loop-IfOthers :
        (held : List Piece) (f : Focus)
        → Others q R r0 rq f
        → IfOthers (release_loop uncompress held f)
    unfolding release_loop
    release_loop-IfOthers [] f h = h
    release_loop-IfOthers (pc ∷ held) f h =
        let old = sub32 f.st.next pc.seq in
        if_cases IfOthers (after pc.seq f.st.next)
          (some (record f { st = record f.st { held = pc ∷ held } })) _ (λ _. h)
          λ _.
            bind-IfOthers _ _
              (if_cases IfOthers (ltb old (length pc.bytes))
                (deliver uncompress (drop old pc.bytes) pc.t f) (some f)
                (λ _. deliver-IfOthers (drop old pc.bytes) pc.t f h) λ _. h)
              λ g k.
                release_loop-IfOthers held
                  (record {
                    st = record g.st { held_bytes = g.st.held_bytes - length pc.bytes };
                    d = record g.d { held = g.d.held - 1 };
                  })
                  k

    release-IfOthers : (f : Focus) → Others q R r0 rq f → IfOthers (release uncompress f)
    unfolding release
    release-IfOthers f h = release_loop-IfOthers f.st.held f h

    skip-IfOthers : (seq : ℕ) (f : Focus) → Others q R r0 rq f → IfOthers (skip uncompress seq f)
    unfolding skip
    skip-IfOthers seq f h =
        let to = gap_end uncompress seq f.st.held in
        bind-IfOthers (lose uncompress (sub32 to f.st.next) f.st.fr >>= framed uncompress f) _
          (framed-IfOthers f (lose uncompress (sub32 to f.st.next) f.st.fr) h)
          λ g k. release-IfOthers (record g { st = record g.st { next = to } }) k

    skip_while-IfOthers :
        (P : List Piece → Bool) (n : ℕ) (held : List Piece) (f : Focus)
        → Others q R r0 rq f
        → IfOthers (skip_while uncompress P n held f)
    unfolding skip_while
    skip_while-IfOthers P n [] f h = h
    skip_while-IfOthers P zero (pc ∷ held) f h =
        if_cases IfOthers (P (pc ∷ held)) none (some f) (λ _. tt) λ _. h
    skip_while-IfOthers P (suc n) (pc ∷ held) f h =
        if_cases IfOthers (P (pc ∷ held)) _ (some f)
          (λ _.
            bind-IfOthers (skip uncompress pc.seq f) _ (skip-IfOthers pc.seq f h)
              λ g k. skip_while-IfOthers P n g.st.held g k)
          λ _. h

    pub skip_pieces-IfOthers :
        (P : List Piece → Bool) (f : Focus)
        → Others q R r0 rq f
        → IfOthers (skip_pieces uncompress P f)
    unfolding skip_pieces
    skip_pieces-IfOthers P f h = skip_while-IfOthers P (length f.st.held) f.st.held f h

    held_or-IfOthers :
        (again : Focus → Option Focus) (r : Bool × Focus)
        → Others q R r0 rq r.1
        → ((g : Focus) → Others q R r0 rq g → IfOthers (again g))
        → IfOthers (held_or uncompress again r)
    unfolding held_or
    held_or-IfOthers again (true, g) h k = h
    held_or-IfOthers again (false, g) h k = k g h

    place_loop-IfOthers :
        (n seq : ℕ) (p : List ℕ) (t : ℕ) (f : Focus)
        → Others q R r0 rq f
        → IfOthers (place_loop uncompress n seq p t f)
    unfolding place_loop
    place_loop-IfOthers zero seq p t f h = tt
    place_loop-IfOthers (suc n) seq p t f h =
        if_cases IfOthers (not (after (add32 seq (length p)) f.st.next)) (some f) _ (λ _. h)
          λ _.
            if_cases IfOthers (not (after seq f.st.next)) _ _
              (λ _.
                bind-IfOthers (deliver uncompress (drop (sub32 f.st.next seq) p) t f) _
                  (deliver-IfOthers (drop (sub32 f.st.next seq) p) t f h)
                  λ g k. release-IfOthers g k)
              λ _. held_or-IfOthers _ (hold seq t p f) (hold-Others seq t p f h) λ g k.
                bind-IfOthers (skip uncompress seq g) _ (skip-IfOthers seq g k)
                  λ i l. place_loop-IfOthers n seq p t i l

    -- Placing a segment leaves the other streams within their limits.
    pub place-IfOthers :
        (seq : ℕ) (p : List ℕ) (t : ℕ) (f : Focus)
        → Others q R r0 rq f
        → IfOthers (place uncompress seq p t f)
    unfolding place
    place-IfOthers seq p t f h =
        bind-IfOthers (skip_pieces uncompress (λ held. stale held t) f) _
          (skip_pieces-IfOthers (λ held. stale held t) f h)
          λ g k. place_loop-IfOthers (length g.st.held + 2) seq p t g k
