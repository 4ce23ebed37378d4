-- ===== src/Wire/Decoder/Reassembly/Held.antt =====
-- wire/decoder.go: release and skip, and the limits on what a stream holds past a gap.
use mathlib.Core.Path.{subst}
use a2kit.Common.{
  Bool-cases, ℕ, zero, suc, ◌+◌, ◌≤◌, ◌<◌, ◌≡◌, ◌⊎◌, inl, inr, refl, ◌∙◌, ap, sym, Bool, false,
  List, [], ◌∷◌, Option, none, some, arith, length, sub32, if_cases,
}
use a2kit.Common.Results.{◌>>=◌}
use a2kit.Wire.Envelope.Progress.{IsQuiet}
use a2kit.Wire.Decoder.State.{Piece, Stream, after, max_held, max_held_bytes}
use a2kit.Wire.Decoder.Table.{Focus}
use a2kit.Wire.Decoder.Reassembly.{release_loop, release, gap_end, skip, skip_while}
use a2kit.Wire.Decoder.Reassembly.Ran.{
  Ran, total, Released, lose-Ran, release_loop-Released, release_loop-takes,
}

-- A stream whose framer is quiet and whose pieces are within the limits, their bytes counted.
pub record IsHeld (st : Stream) : Type 0 where
  pub quiet : IsQuiet st.fr.env
  pub few : length st.held ≤ max_held
  pub counted : st.held_bytes ≡ total st.held
  pub room : total st.held ≤ max_held_bytes

-- A step that returned, with the stream within its limits, and `n` pieces at most
abbrev pub Fine : ℕ → Option Focus → Type 0
Fine n none = ⊥
Fine n (some g) = IsHeld g.st × (length g.st.held ≤ n)

Fine-mono : (m n : ℕ) (o : Option Focus) → m ≤ n → Fine m o → Fine n o
Fine-mono m n none h f = f
Fine-mono m n (some g) h f = (f.0, omega (arith, f.1))

Released-Fine :
    (st : Stream) (held : List Piece) (o : Option Focus)
    → IsHeld st
    → length held ≤ length st.held
    → total held ≤ total st.held
    → Released held o
    → Fine (length held) o
Released-Fine st held none s l t h = h
Released-Fine st held (some g) s l t h = (
  record { quiet = h.0; few = omega (arith, s.few); counted = h.2; room = omega (arith, s.room) },
  h.1,
)

pub after-same : (a : ℕ) → after a a ≡ false
unfolding after
after-same a = ground arith

module _ (uncompress : List ℕ → ℕ → Option (List ℕ)) where
  pub release-Fine : (f : Focus) → IsHeld f.st → Fine (length f.st.held) (release uncompress f)
  unfolding release
  release-Fine f s =
      Released-Fine f.st f.st.held _ s (omega arith) (omega arith)
        (release_loop-Released uncompress f.st.held f s.quiet s.counted)

  -- What skip leaves, whose gap ends at `n`: fewer pieces, or the stream's place there
  abbrev Landed : ℕ → List Piece → Option Focus → Type 0
  Landed n held none = ⊥
  Landed n held (some g) =
      Released held (some g) × ((length g.st.held < length held) ⊎ (g.st.next ≡ n))

  fewer-Landed :
      (n : ℕ) (pc : Piece) (held : List Piece) (o : Option Focus)
      → Released held o
      → Landed n (pc ∷ held) o
  fewer-Landed n pc held none h = h
  fewer-Landed n pc held (some g) h = ((h.0, omega arith, h.2, omega arith), inl (omega arith))

  release_loop-Landed :
      (held : List Piece) (g : Focus)
      → IsQuiet g.st.fr.env
      → g.st.held_bytes ≡ total held
      → Landed g.st.next held (release_loop uncompress held g)
  unfolding release_loop
  release_loop-Landed [] g q e = ((q, omega arith, e, omega arith), inr refl)
  release_loop-Landed (pc ∷ held) g q e = elim (Bool-cases (after pc.seq g.st.next)) [
    | inl a ↦ rw a ((q, omega arith, e, omega arith), inr refl)
    | inr a ↦ fewer-Landed g.st.next pc held _ (release_loop-takes uncompress pc held g a q e)
  ]

  abbrev moved : ℕ → Focus → Focus
  moved n g = record g { st = record g.st { next = n } }

  -- The rest of skip, after the framer's call
  skip-rest :
      (Q : List Piece → Option Focus → Type 0) (n : ℕ) (st : Stream) (o : Option Focus)
      → Q st.held none ≡ ⊥
      → IsHeld st
      → ((g : Focus)
          → IsQuiet g.st.fr.env
          → g.st.held_bytes ≡ total st.held
          → Q st.held (release_loop uncompress st.held (moved n g)))
      → Ran st o
      → Q st.held (o >>= λ g. release uncompress (moved n g))
  unfolding release
  skip-rest Q n st none z s rec h = absurd h
  skip-rest Q n st (some g) z s rec h =
      subst (λ held. Q st.held (release_loop uncompress held (moved n g))) (sym h.1)
        (rec g h.0 (h.2 ∙ s.counted))

  skip-Landed :
      (seq : ℕ) (f : Focus)
      → IsHeld f.st
      → Landed (gap_end uncompress seq f.st.held) f.st.held (skip uncompress seq f)
  unfolding skip
  skip-Landed seq f s =
      skip-rest (Landed (gap_end uncompress seq f.st.held)) (gap_end uncompress seq f.st.held) f.st
        _ refl s (λ g q e. release_loop-Landed f.st.held (moved _ g) q e)
        (lose-Ran uncompress (sub32 (gap_end uncompress seq f.st.held) f.st.next) f s.quiet)

  gap_end-first : (pc : Piece) (held : List Piece) → gap_end uncompress pc.seq (pc ∷ held) ≡ pc.seq
  unfolding gap_end
  gap_end-first pc held = rw (after-same pc.seq) refl

  -- A skip to the oldest piece takes it.
  skip-takes :
      (seq : ℕ) (pc : Piece) (held : List Piece) (f : Focus)
      → f.st.held ≡ pc ∷ held
      → gap_end uncompress seq (pc ∷ held) ≡ pc.seq
      → IsHeld f.st
      → Released held (skip uncompress seq f)
  unfolding skip
  skip-takes seq pc held f here g s =
      skip-rest (λ _. Released held) (gap_end uncompress seq f.st.held) f.st _ refl s
        (λ h q e.
          subst
            (λ hs.
              Released held
                (release_loop uncompress hs (moved (gap_end uncompress seq f.st.held) h)))
            (sym here)
            (release_loop-takes uncompress pc held (moved (gap_end uncompress seq f.st.held) h)
              (rw (here, g) (after-same pc.seq)) q (e ∙ ap total here)))
        (lose-Ran uncompress (sub32 (gap_end uncompress seq f.st.held) f.st.next) f s.quiet)

  -- What a round of place leaves: fewer pieces, or the stream's place at the segment
  abbrev pub Moved : ℕ → ℕ → Option Focus → Type 0
  Moved seq n none = ⊥
  Moved seq n (some g) = IsHeld g.st × ((length g.st.held < n) ⊎ (g.st.next ≡ seq))

  Landed-Moved :
      (seq : ℕ) (st : Stream) (o : Option Focus)
      → IsHeld st
      → Landed seq st.held o
      → Moved seq (length st.held) o
  Landed-Moved seq st none s h = h
  Landed-Moved seq st (some g) s h =
      ((Released-Fine st st.held (some g) s (omega arith) (omega arith) h.0).0, h.1)

  Released-Moved :
      (seq : ℕ) (pc : Piece) (held : List Piece) (st : Stream) (o : Option Focus)
      → st.held ≡ pc ∷ held
      → IsHeld st
      → Released held o
      → Moved seq (length st.held) o
  Released-Moved seq pc held st none here s h = h
  Released-Moved seq pc held st (some g) here s h = (
    (Released-Fine st held (some g) s (omega (arith, ap length here)) (omega (arith, ap total here))
        h).0,
    inl (omega (arith, ap length here, h.1)),
  )

  -- What skip does for place
  pub skip-Moved :
      (seq : ℕ) (f : Focus) (held : List Piece)
      → f.st.held ≡ held
      → IsHeld f.st
      → Moved seq (length f.st.held) (skip uncompress seq f)
  unfolding gap_end
  skip-Moved seq f [] here s = Landed-Moved seq f.st _ s (
      subst (λ n. Landed n f.st.held (skip uncompress seq f)) (ap (gap_end uncompress seq) here)
        (skip-Landed seq f s))
  skip-Moved seq f (pc ∷ held) here s = elim (Bool-cases (after seq pc.seq)) [
    | inl a ↦ Released-Moved seq pc held f.st _ here s (skip-takes seq pc held f here (rw a refl) s)
    | inr a ↦ Landed-Moved seq f.st _ s (
        subst (λ n. Landed n f.st.held (skip uncompress seq f))
          (ap (gap_end uncompress seq) here ∙ rw a refl) (skip-Landed seq f s))
  ]

  more-Fine :
      (P : List Piece → Bool) (k : ℕ) (st : Stream) (held : List Piece) (o : Option Focus)
      → ((g : Focus)
          → length g.st.held ≤ k
          → IsHeld g.st
          → Fine (length g.st.held) (skip_while uncompress P k g.st.held g))
      → IsHeld st
      → length held + 1 ≡ length st.held
      → total held ≤ total st.held
      → length held ≤ k
      → Released held o
      → Fine (length st.held) (o >>= λ g. skip_while uncompress P k g.st.held g)
  more-Fine P k st held none rec s l t b h = h
  more-Fine P k st held (some g) rec s l t b h =
      let r = Released-Fine st held (some g) s (omega arith) t h in
      Fine-mono (length g.st.held) (length st.held) _ (omega (arith, h.1))
        (rec g (omega (arith, h.1)) r.0)

  pub skip_while-Fine :
      (P : List Piece → Bool) (k : ℕ) (held : List Piece) (f : Focus)
      → f.st.held ≡ held
      → length held ≤ k
      → IsHeld f.st
      → Fine (length f.st.held) (skip_while uncompress P k held f)
  unfolding skip_while
  skip_while-Fine P k [] f here l s = (s, omega arith)
  skip_while-Fine P zero (pc ∷ held) f here l s = absurd (omega arith)
  skip_while-Fine P (suc k) (pc ∷ held) f here l s =
      if_cases (Fine (length f.st.held)) (P (pc ∷ held))
        (skip uncompress pc.seq f >>= λ g. skip_while uncompress P k g.st.held g) (some f)
        (λ _.
          more-Fine P k f.st held _ (λ g b r. skip_while-Fine P k g.st.held g refl b r) s
            (omega (arith, ap length here)) (omega (arith, ap total here)) (omega arith)
            (skip-takes pc.seq pc held f here (gap_end-first pc held) s))
        λ _. (s, omega arith)
