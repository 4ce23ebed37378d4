-- ===== src/Wire/Envelope/Progress.antt =====
-- What a call of strip leaves: its state, and how many bytes.
use a2kit.Common.{
  ℕ, ◌+◌, ◌-◌, ◌≤◌, ◌<◌, ◌≡◌, refl, true, false, List, [], ◌∷◌, arith, length, u32_le, take,
  length-append,
}
use a2kit.Wire.Envelope.{Envelopes, believable, strip, on_header}
use a2kit.Wire.Envelope.Feed.{Stripped, grow, feed, strip-feed}

-- A stream outside envelopes is between two, and has lost none.
pub record IsQuiet (e : Envelopes) : Type 0 where
  pub at_rest : e.on ≡ false → e.left ≡ 0
  pub no_head : e.on ≡ false → e.head ≡ []
  pub not_lost : e.on ≡ false → e.lost ≡ false

record Left (e : Envelopes) (p : List ℕ) (r : Stripped) : Type 0 where
  ended : r.1 ≡ true → (r.2.on ≡ false) × (r.2.left ≡ 0) × (r.2.head ≡ []) × (r.2.lost ≡ e.lost)
  goes_on : r.1 ≡ false → (r.2.on ≡ e.on) × (r.2.lost ≡ e.lost)
  fewer : length r.0 ≤ length e.head + length p

feed-Left : (e : Envelopes) (p : List ℕ) → Left e p (feed e p)
unfolding feed
feed-Left e [] = record { ended = λ h. cc; goes_on = λ h. (refl, refl); fewer = omega arith }
feed-Left e (b ∷ p) = ground (
  arith,
  feed-Left (record e { left = e.left - 1 }) p,
  feed-Left (grow e b) p,
  feed-Left (on_header (grow e b)) p,
  length-append e.head (b ∷ []),
  length-append (grow e b).head p,
)

-- Bytes of a stream between two envelopes that begin with a believable header lose it.
feed_header-lt :
    (e : Envelopes) (p : List ℕ)
    → e.left ≡ 0
    → e.head ≡ []
    → 4 ≤ length p
    → believable (u32_le (take 4 p)) ≡ true
    → length (feed e p).0 < length p
unfolding feed
feed_header-lt e (a ∷ b ∷ c ∷ d ∷ p) h g l t =
    ground (arith, feed-Left (record e { left = u32_le (a ∷ b ∷ c ∷ d ∷ []); head = [] }) p)
feed_header-lt e _ h g l t = absurd (omega arith)

-- strip leaves a stream that is in envelopes, or quiet.
pub strip-IsQuiet :
    (e : Envelopes) (p : List ℕ) → e.on ≡ true → e.lost ≡ false → IsQuiet (strip e p).2
strip-IsQuiet e p o l = rw (strip-feed e p) (quiet (feed e p) (feed-Left e p))
  where
    quiet : (r : Stripped) → Left e p r → IsQuiet r.2
    quiet (out, true, f) h = ground arith
    quiet (out, false, f) h = ground arith

-- A header that is stripped makes the bytes fewer.
pub strip_header-lt :
    (e : Envelopes) (p : List ℕ)
    → e.left ≡ 0
    → e.head ≡ []
    → 4 ≤ length p
    → believable (u32_le (take 4 p)) ≡ true
    → length (strip e p).0 < length p
strip_header-lt e p h g l t = rw (strip-feed e p) (feed_header-lt e p h g l t)
