-- ===== src/Wire/Framer/Bundle.antt =====
-- wire/framer.go: parse, walk and unwrap. LZ4 is a library's, and a parameter here: `uncompress`
-- is UncompressBlock on a block and the room for its output, `none` for its error.
pub mod Plain
use a2kit.Common.{
  ℕ, zero, suc, ◌+◌, ◌-◌, ◌*◌, bit_or, Bool, true, false, ◌&&◌, ◌||◌, List, [], ◌∷◌, ◌++◌, Option,
  none, some, ltb, leb, ◌==◌, if◌then◌else◌, length, take, drop, byte_at, u32_le,
}
use a2kit.Wire.Frame.{was_lz4, was_bundled, resynced}
use a2kit.Wire.Framer.State.{Emission, max_plain, min_bundle, max_growth}
use a2kit.Wire.Framer.Length.{Length, invalid, partial, whole, frame_len}

-- Whether the next frame is flagged Resynced, and the frames emitted so far.
pub record Out : Type 0 where
  pub resync : Bool
  pub frames : List Emission

module _ (uncompress : List ℕ → ℕ → Option (List ℕ)) (known_only trusted : Bool) where
  unfoldable pub give : List ℕ → ℕ → Out → Out
  give body flags o = record {
    resync = false;
    frames =
        o.frames
        ++ (record {
          body = body;
          flags = if o.resync then bit_or flags resynced else flags;
          trusted = trusted;
        }
            ∷ []);
  }

  walk_at : (List ℕ → ℕ → Out → Out) → List ℕ → ℕ → Length → Out → Option (List ℕ × Out)
  walk_at inner p flags invalid o = none
  walk_at inner p flags (partial head) o = none
  walk_at inner p flags (whole n head) o =
      some (drop n p, inner (take (n - head) (drop head p)) flags o)

  -- walk, with a parse for the bodies. A round takes a byte at least.
  walk : (List ℕ → ℕ → Out → Out) → ℕ → List ℕ → ℕ → Out → Out
  unfolding walk_at
  walk inner k [] flags o = o
  walk inner zero (b ∷ p) flags o = o
  walk inner (suc k) (b ∷ p) flags o =
      let rest = walk inner k p flags o in
      if b == 0
      then rest
      else elim (walk_at inner (b ∷ p) flags (frame_len known_only (b ∷ p) true) o) [
        | none ↦ o
        | some (p', o') ↦ walk inner k p' flags o'
      ]

  -- The size that a bundle states, or 0 where it is too short to state one.
  abbrev stated : List ℕ → ℕ
  stated body = if leb min_bundle (length body) then u32_le (drop 2 body) else 0

  abbrev refused : ℕ → List ℕ → Bool
  refused used body =
      stated body == 0
      || ltb (max_growth * (length body - 6)) (stated body)
      || ltb (max_plain - used) (stated body)

  plaintext : List ℕ → Option (List ℕ)
  plaintext body = elim (uncompress (drop 6 body) (stated body)) [
    | none ↦ none
    | some p ↦ if length p == stated body then some p else none
  ]

  -- unwrap below the depth limit: `used` is the plaintext of the bundles around this one
  unwrap : (ℕ → List ℕ → ℕ → Out → Out) → ℕ → List ℕ → ℕ → Out → Bool × Out
  unfolding plaintext walk
  unwrap inner used body flags o = if refused used body then (false, o) else elim (plaintext body) [
    | none ↦ (false, o)
    | some p ↦ (
      true,
      walk (inner (used + stated body)) (length p) p (bit_or flags (bit_or was_lz4 was_bundled)) o,
    )
  ]

  abbrev is_bundle : List ℕ → Bool
  is_bundle body = byte_at body 0 == 0xFF && byte_at body 1 == 0xFF

  abbrev is_flagged : List ℕ → Bool
  is_flagged body =
      ltb min_bundle (length body)
      && leb 0xF0 (byte_at body 0)
      && ltb (byte_at body 0) 0xFF
      && byte_at body 1 == 0xFF
      && byte_at body 2 == 0xFF

  abbrev unless_unwrapped : List ℕ → ℕ → Bool × Out → Out
  unless_unwrapped body flags (true, o) = o
  unless_unwrapped body flags (false, o) = give body flags o

  -- parse, with an unwrap
  parse_with : (List ℕ → Bool × Out) → List ℕ → ℕ → Out → Out
  unfolding give
  parse_with unwrapped body flags o =
      if is_bundle body
      then (unwrapped body).1
      else if is_flagged body
      then unless_unwrapped body flags (unwrapped (drop 1 body))
      else give body flags o

  -- parse, with the levels left below max_depth in place of the depth
  unfoldable pub parse : ℕ → ℕ → List ℕ → ℕ → Out → Out
  unfolding parse_with unwrap
  parse zero used body flags o = parse_with (λ b. (false, o)) body flags o
  parse (suc levels) used body flags o =
      parse_with (λ b. unwrap (parse levels) used b flags o) body flags o
