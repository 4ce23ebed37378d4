-- ===== src/Wire/Decoder/Reassembly.antt =====
-- wire/decoder.go: a stream's bytes put in order. A function on a stream has it taken out of the
-- table, beside the decoder. `uncompress` is the framer's parameter, and `none` means that a loop
-- ran out of fuel.
pub mod Ran
pub mod Held
pub mod Place
pub mod Others
use a2kit.Common.{
  ℕ, zero, suc, ◌+◌, ◌-◌, Bool, true, false, not, ◌&&◌, ◌||◌, List, [], ◌∷◌, ◌++◌, Option, none,
  some, ltb, leb, ◌==◌, if◌then◌else◌, length, drop, sub32, add32,
}
use a2kit.Wire.Framer.State.{Framer, Emission}
use a2kit.Wire.Framer.Write.{write, lose}
use a2kit.Wire.Decoder.State.{Key, Piece, Decoder, after, stale, tls_like, max_held, max_held_bytes}
use a2kit.Wire.Decoder.Table.{Focus, lookup, remove, store}
use a2kit.Wire.Decoder.Lock.{emit_all}
use a2kit.Common.Results.{◌>>=◌}

-- Whether ack covers the oldest piece's gap
pub first_in : ℕ → List Piece → Bool
unfolding after
first_in ack [] = false
first_in ack (pc ∷ held) = not (after pc.seq ack)

-- The pieces before index i of hold's scan from the end, and those from it on
unfoldable pub split_at : ℕ → List Piece → List Piece × List Piece
unfolding after
split_at seq [] = ([], [])
split_at seq (q ∷ held) =
    let (before, behind) = split_at seq held in
    elim before [
      | [] ↦ if after q.seq seq then ([], q ∷ behind) else (q ∷ [], behind)
      | x ∷ xs ↦ (q ∷ x ∷ xs, behind)
    ]

-- Whether the last piece of `before` holds the bytes already
retransmit : ℕ → List ℕ → List Piece → Bool
retransmit seq p [] = false
retransmit seq p (q ∷ []) = q.seq == seq && leb (length p) (length q.bytes)
retransmit seq p (q ∷ r ∷ before) = retransmit seq p (r ∷ before)

unfoldable pub hold : ℕ → ℕ → List ℕ → Focus → Bool × Focus
unfolding split_at retransmit
hold seq t p f =
    let st = f.st in
    let (before, behind) = split_at seq st.held in
    if retransmit seq p before
    then (true, f)
    else if length st.held == max_held || ltb max_held_bytes (st.held_bytes + length p)
    then (false, f)
    else (
      true,
      record {
        st = record st {
          held = before ++ (record { seq = seq; t = t; bytes = p } ∷ behind);
          held_bytes = st.held_bytes + length p;
        };
        d = record f.d { held = f.d.held + 1 };
      },
    )

module _ (uncompress : List ℕ → ℕ → Option (List ℕ)) where
  -- The frames that a call of the framer emits, once it returns
  unfoldable pub framed : Focus → Framer × List Emission → Option Focus
  unfolding emit_all
  framed f (fr, es) = some (emit_all es (record f { st = record f.st { fr = fr } }))

  unfoldable pub take : List ℕ → ℕ → Focus → Option Focus
  unfolding framed tls_like write lose
  take p t f =
      let st = record f.st { at = t } in
      let g = record f { st = st } in
      if not f.d.config.parse_tls && st.dir == 0 && tls_like p
      then lose uncompress (length p) st.fr >>= framed g
      else write uncompress p st.fr >>= framed g

  unfoldable pub deliver : List ℕ → ℕ → Focus → Option Focus
  unfolding take
  deliver p t f = take p t (record f { st = record f.st { next = add32 f.st.next (length p) } })

  -- release, on the pieces held
  pub release_loop : List Piece → Focus → Option Focus
  unfolding deliver after
  release_loop [] f = some (record f { st = record f.st { held = [] } })
  release_loop (pc ∷ held) f =
      let old = sub32 f.st.next pc.seq in
      let delivered =
        if ltb old (length pc.bytes) then deliver (drop old pc.bytes) pc.t f else some f in
      let rest = delivered >>= λ g. release_loop held (record {
        st = record g.st { held_bytes = g.st.held_bytes - length pc.bytes };
        d = record g.d { held = g.d.held - 1 };
      }) in
      if after pc.seq f.st.next
      then some (record f { st = record f.st { held = pc ∷ held } })
      else rest

  unfoldable pub release : Focus → Option Focus
  unfolding release_loop
  release f = release_loop f.st.held f

  -- Where skip's gap ends
  gap_end : ℕ → List Piece → ℕ
  gap_end seq [] = seq
  gap_end seq (pc ∷ held) = if after seq pc.seq then pc.seq else seq

  unfoldable pub skip : ℕ → Focus → Option Focus
  unfolding gap_end lose framed release
  skip seq f =
      let to = gap_end seq f.st.held in
      lose uncompress (sub32 to f.st.next) f.st.fr >>= framed f >>= λ g.
      release (record g { st = record g.st { next = to } })

  -- A loop that skips to the oldest piece while the test holds of the pieces
  pub skip_while : (List Piece → Bool) → ℕ → List Piece → Focus → Option Focus
  unfolding skip
  skip_while P k [] f = some f
  skip_while P zero (pc ∷ held) f = if P (pc ∷ held) then none else some f
  skip_while P (suc k) (pc ∷ held) f =
      if P (pc ∷ held) then (skip pc.seq f >>= λ g. skip_while P k g.st.held g) else some f

  -- Each round takes a piece at least.
  unfoldable pub skip_pieces : (List Piece → Bool) → Focus → Option Focus
  unfolding skip_while
  skip_pieces P f = skip_while P (length f.st.held) f.st.held f

  -- place's answer to hold
  held_or : (Focus → Option Focus) → Bool × Focus → Option Focus
  held_or again (true, f) = some f
  held_or again (false, f) = again f

  -- place's second loop
  place_loop : ℕ → ℕ → List ℕ → ℕ → Focus → Option Focus
  unfolding after deliver release hold skip held_or
  place_loop zero seq p t f = none
  place_loop (suc k) seq p t f =
      if not (after (add32 seq (length p)) f.st.next)
      then some f
      else if not (after seq f.st.next)
      then deliver (drop (sub32 f.st.next seq) p) t f >>= release
      else held_or (λ g. skip seq g >>= place_loop k seq p t) (hold seq t p f)

  -- place. A round that does not return takes a piece, or comes to the segment itself.
  unfoldable pub place : ℕ → List ℕ → ℕ → Focus → Option Focus
  unfolding skip_pieces stale place_loop
  place seq p t f =
      skip_pieces (λ held. stale held t) f >>= λ g. place_loop (length g.st.held + 2) seq p t g

  -- acked
  unfoldable pub acked : Key → ℕ → Decoder → Option Decoder
  unfolding lookup remove skip_pieces after first_in
  acked k ack d = elim (lookup k d.streams) [
    | none ↦ some d
    | some st ↦
        skip_pieces (first_in ack)
          (record { st = st; d = record d { streams = remove k d.streams } })
        >>= λ f. some (store f)
  ]
