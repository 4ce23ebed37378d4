-- ===== src/Wire/Decoder/Early.antt =====
-- wire/stream.go: what a hunting stream keeps of its frames.
use a2kit.Common.{
  ℕ, ◌+◌, ◌-◌, ◌≤◌, ◌≡◌, refl, ap, List, [], ◌∷◌, ◌++◌, arith, length, if_cases, ltb, ◌||◌,
}
use a2kit.Wire.Frame.{Frame}
use a2kit.Wire.Decoder.State.{Stream, max_early, max_early_bytes, trim_early, wait}

-- The payload bytes of frames
abbrev pub payloads : List Frame → ℕ
payloads [] = 0
payloads (f ∷ early) = length f.payload + payloads early

payloads-append : (xs ys : List Frame) → payloads (xs ++ ys) ≡ payloads xs + payloads ys
payloads-append [] ys = omega arith
payloads-append (f ∷ xs) ys = omega (arith, payloads-append xs ys)

-- Frames within the limits, their bytes counted, that are the end of `all`
abbrev Trimmed : List Frame → List Frame × ℕ → Type 0
Trimmed all (early, n) =
    (length early ≤ max_early)
    × (n ≤ max_early_bytes)
    × (n ≡ payloads early)
    × ((gone : List Frame) × (all ≡ gone ++ early))

trim_early-Trimmed :
    (early : List Frame) (n : ℕ) → n ≡ payloads early → Trimmed early (trim_early early n)
unfolding trim_early
trim_early-Trimmed [] n h = (omega arith, omega arith, h, ([], refl))
trim_early-Trimmed (f ∷ early) n h =
    let rest = trim_early-Trimmed early (n - length f.payload) (omega arith) in
    if_cases (Trimmed (f ∷ early)) (ltb max_early (length (f ∷ early)) || ltb max_early_bytes n)
      (trim_early early (n - length f.payload)) (f ∷ early, n)
      (λ _. (rest.0, rest.1, rest.2, (f ∷ rest.3.0, ap (λ xs. f ∷ xs) rest.3.1)))
      λ g. (ground arith, ground arith, h, ([], refl))

-- Where earlyBytes counts the payload bytes of a stream's early frames, a stream that is given one
-- more keeps at most 64 frames and 256 KiB, the newest, and earlyBytes counts them again.
pub wait-keeps :
    (f : Frame) (st : Stream)
    → st.early_bytes ≡ payloads st.early
    → (length (wait f st).early ≤ max_early)
      × ((wait f st).early_bytes ≤ max_early_bytes)
      × ((wait f st).early_bytes ≡ payloads (wait f st).early)
      × ((gone : List Frame) × (st.early ++ (f ∷ []) ≡ gone ++ (wait f st).early))
unfolding wait
wait-keeps f st h =
    trim_early-Trimmed (st.early ++ (f ∷ [])) (st.early_bytes + length f.payload)
      (omega (arith, payloads-append st.early (f ∷ [])))
