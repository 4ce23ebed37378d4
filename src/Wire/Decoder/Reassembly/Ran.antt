-- ===== src/Wire/Decoder/Reassembly/Ran.antt =====
-- wire/decoder.go: take, deliver and release's loop, which hand a stream's bytes to its framer.
use mathlib.Core.Path.{subst}
use a2kit.Common.{
  ℕ, ◌+◌, ◌-◌, ◌≤◌, ◌≡◌, refl, false, not, ◌&&◌, List, [], ◌∷◌, Option, none, some, arith, length,
  drop, sub32, add32, ltb, if◌then◌else◌, if_cases, ◌==◌,
}
use a2kit.Common.Results.{◌>>=◌}
use a2kit.Wire.Envelope.Progress.{IsQuiet}
use a2kit.Wire.Framer.State.{Framer, Emission}
use a2kit.Wire.Framer.Write.{write, lose}
use a2kit.Wire.Framer.Write.Total.{write-returns, lose-returns}
use a2kit.Wire.Decoder.State.{Piece, Stream, after, tls_like}
use a2kit.Wire.Decoder.Table.{Focus}
use a2kit.Wire.Decoder.Lock.Kept.{emit_all-Kept}
use a2kit.Wire.Decoder.Reassembly.{framed, take, deliver, release_loop}

-- A call of the framer that returned: it is quiet, and what the stream puts in order is as before.
abbrev pub Ran : Stream → Option Focus → Type 0
Ran st none = ⊥
Ran st (some g) =
    IsQuiet g.st.fr.env
    × (g.st.held ≡ st.held)
    × (g.st.held_bytes ≡ st.held_bytes)
    × (g.st.next ≡ st.next)

-- The bytes of pieces
abbrev pub total : List Piece → ℕ
total [] = 0
total (pc ∷ held) = length pc.bytes + total held

-- What release leaves of the pieces it is given: an end of them, with their bytes counted.
abbrev pub Released : List Piece → Option Focus → Type 0
Released held none = ⊥
Released held (some g) =
    IsQuiet g.st.fr.env
    × (length g.st.held ≤ length held)
    × (g.st.held_bytes ≡ total g.st.held)
    × (total g.st.held ≤ total held)

module _ (uncompress : List ℕ → ℕ → Option (List ℕ)) where
  pub framed-Ran :
      (f : Focus) (fr : Framer) (es : List Emission)
      → IsQuiet fr.env
      → Ran f.st (framed uncompress f (fr, es))
  unfolding framed
  framed-Ran f fr es q =
      let k = emit_all-Kept es (record f { st = record f.st { fr = fr } }) in
      (rw k.fr q, k.held, k.held_bytes, k.next)

  pub lose-Ran :
      (n : ℕ) (f : Focus)
      → IsQuiet f.st.fr.env
      → Ran f.st (lose uncompress n f.st.fr >>= framed uncompress f)
  lose-Ran n f q =
      let (fr, es, e, h, _) = lose-returns uncompress n f.st.fr q in
      rw (e, Ran) (framed-Ran f fr es h)

  write-Ran :
      (p : List ℕ) (f : Focus)
      → IsQuiet f.st.fr.env
      → Ran f.st (write uncompress p f.st.fr >>= framed uncompress f)
  write-Ran p f q =
      let (fr, es, e, h) = write-returns uncompress p f.st.fr q in
      rw (e, Ran) (framed-Ran f fr es h)

  pub take-Ran :
      (p : List ℕ) (t : ℕ) (f : Focus) → IsQuiet f.st.fr.env → Ran f.st (take uncompress p t f)
  unfolding take
  take-Ran p t f q =
      let g : Focus = record f { st = record f.st { at = t } } in
      if_cases (Ran f.st) (not f.d.config.parse_tls && f.st.dir == 0 && tls_like p)
        (lose uncompress (length p) f.st.fr >>= framed uncompress g)
        (write uncompress p f.st.fr >>= framed uncompress g) (λ _. lose-Ran (length p) g q)
        λ _. write-Ran p g q

  pub deliver-Ran :
      (p : List ℕ) (t : ℕ) (f : Focus)
      → IsQuiet f.st.fr.env
      → Ran (record f.st { next = add32 f.st.next (length p) }) (deliver uncompress p t f)
  unfolding deliver
  deliver-Ran p t f q =
      take-Ran p t (record f { st = record f.st { next = add32 f.st.next (length p) } }) q

  Released-mono :
      (pc : Piece) (held : List Piece) (o : Option Focus) → Released held o → Released (pc ∷ held) o
  Released-mono pc held none h = h
  Released-mono pc held (some g) h = (h.0, omega arith, h.2, omega arith)

  -- One piece handed on, or passed over.
  abbrev handed : Piece → Focus → Option Focus
  handed pc f =
      let old = sub32 f.st.next pc.seq in
      if ltb old (length pc.bytes) then deliver uncompress (drop old pc.bytes) pc.t f else some f

  -- A piece taken off what is held
  abbrev pub less : Piece → Focus → Focus
  less pc g = record {
    st = record g.st { held_bytes = g.st.held_bytes - length pc.bytes };
    d = record g.d { held = g.d.held - 1 };
  }

  -- Of the bytes held before a piece is handed on
  abbrev Counts : ℕ → Option Focus → Type 0
  Counts n none = ⊥
  Counts n (some g) = IsQuiet g.st.fr.env × (g.st.held_bytes ≡ n)

  Ran-Counts : (st : Stream) (o : Option Focus) → Ran st o → Counts st.held_bytes o
  Ran-Counts st none h = h
  Ran-Counts st (some g) h = (h.0, h.2)

  handed-Counts :
      (pc : Piece) (f : Focus) → IsQuiet f.st.fr.env → Counts f.st.held_bytes (handed pc f)
  handed-Counts pc f q =
      let old = sub32 f.st.next pc.seq in
      if_cases (Counts f.st.held_bytes) (ltb old (length pc.bytes))
        (deliver uncompress (drop old pc.bytes) pc.t f) (some f)
        (λ _.
          Ran-Counts (record f.st { next = add32 f.st.next (length (drop old pc.bytes)) }) _
            (deliver-Ran (drop old pc.bytes) pc.t f q))
        λ _. (q, refl)

  rest-Released :
      (pc : Piece) (held : List Piece) (o : Option Focus)
      → ((g : Focus)
          → IsQuiet g.st.fr.env
          → g.st.held_bytes ≡ total held
          → Released held (release_loop uncompress held g))
      → Counts (length pc.bytes + total held) o
      → Released held (o >>= λ g. release_loop uncompress held (less pc g))
  rest-Released pc held none rec h = h
  rest-Released pc held (some g) rec h = rec (less pc g) h.0 (omega (arith, h.1))

  pub release_loop-Released :
      (held : List Piece) (f : Focus)
      → IsQuiet f.st.fr.env
      → f.st.held_bytes ≡ total held
      → Released held (release_loop uncompress held f)
  unfolding release_loop
  release_loop-Released [] f q e = (q, omega arith, e, omega arith)
  release_loop-Released (pc ∷ held) f q e =
      if_cases (Released (pc ∷ held)) (after pc.seq f.st.next)
        (some (record f { st = record f.st { held = pc ∷ held } }))
        (handed pc f >>= λ g. release_loop uncompress held (less pc g))
        (λ _. (q, omega arith, e, omega arith))
        λ _. Released-mono pc held _ (
          rest-Released pc held (handed pc f) (λ g r c. release_loop-Released held g r c)
            (subst (λ n. Counts n (handed pc f)) e (handed-Counts pc f q)))

  -- A piece that is not past the stream's place is taken.
  pub release_loop-takes :
      (pc : Piece) (held : List Piece) (f : Focus)
      → after pc.seq f.st.next ≡ false
      → IsQuiet f.st.fr.env
      → f.st.held_bytes ≡ length pc.bytes + total held
      → Released held (release_loop uncompress (pc ∷ held) f)
  unfolding release_loop
  release_loop-takes pc held f a q e =
      if_cases (Released held) (after pc.seq f.st.next)
        (some (record f { st = record f.st { held = pc ∷ held } }))
        (handed pc f >>= λ g. release_loop uncompress held (less pc g)) (λ b. cc)
        λ _.
          rest-Released pc held (handed pc f) (λ g r c. release_loop-Released held g r c)
            (subst (λ n. Counts n (handed pc f)) e (handed-Counts pc f q))
