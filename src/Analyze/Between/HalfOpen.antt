-- ===== src/Analyze/Between/HalfOpen.antt =====
-- analyze.go: between, beside a filter of the messages.
use a2kit.Common.{
  ℕ, ◌-◌, suc, ◌≤◌, ◌<◌, false, ◌&&◌, ◌≡◌, refl, sym, ◌∙◌, ap, List, [], ◌∷◌, some, All, All-map,
  ltb, leb, if◌then◌else◌, take, drop, arith, Bool-cases, inl, inr, ltb→lt, lt→ltb, le→ltb, le→leb,
}
use a2kit.Common.Sort.{IsSorted}
use a2kit.Messages.{Message}
use a2kit.Analyze.Between.{first_at, between}

abbrev pub time_of : Message → ℕ
time_of m = m.frame.time

-- The messages of the half-open interval
abbrev pub within : ℕ → ℕ → List Message → List Message
within t0 t1 [] = []
within t0 t1 (m ∷ ms) =
    let rest = within t0 t1 ms in
    if leb t0 (time_of m) && ltb (time_of m) t1 then m ∷ rest else rest

first_at-zero : (t : ℕ) (ms : List Message) → All (λ m. t ≤ time_of m) ms → first_at t ms ≡ 0
unfolding first_at
first_at-zero t [] h = refl
first_at-zero t (m ∷ ms) (h, hs) = ground arith

within-none : (t0 t1 : ℕ) (ms : List Message) → All (λ m. t1 ≤ time_of m) ms → within t0 t1 ms ≡ []
within-none t0 t1 [] h = refl
within-none t0 t1 (m ∷ ms) (h, hs) = ground (arith, within-none t0 t1 ms hs)

not_before : (a b : ℕ) → ltb a b ≡ false → b ≤ a
not_before a b h = ground arith

later : (a b c : ℕ) → a ≤ b → b ≤ c → a ≤ c
later a b c h g = omega arith

above : (a b : ℕ) → a < b → leb b a ≡ false
above a b h = ground arith

cut : ℕ → ℕ → List Message → List Message
cut i j ms = take (j - i) (drop i ms)

cut-suc : (i j : ℕ) (m : Message) (ms : List Message) → cut (suc i) (suc j) (m ∷ ms) ≡ cut i j ms
unfolding cut
cut-suc i j m ms = ap (λ (k : ℕ). take k (drop i ms)) (omega arith)

-- The two ends and what is between them
abbrev Cuts : ℕ → ℕ → List Message → Type 0
Cuts t0 t1 ms =
    (first_at t0 ms ≤ first_at t1 ms) × (cut (first_at t0 ms) (first_at t1 ms) ms ≡ within t0 t1 ms)

earlier-Cuts :
    (t0 t1 : ℕ) (m : Message) (ms : List Message)
    → t0 ≤ t1
    → time_of m < t0
    → Cuts t0 t1 ms
    → Cuts t0 t1 (m ∷ ms)
unfolding first_at
earlier-Cuts t0 t1 m ms le a (h, e) =
    rw (lt→ltb (time_of m) t0 a, lt→ltb (time_of m) t1 (omega arith), above (time_of m) t0 a)
      (omega (arith, h), cut-suc (first_at t0 ms) (first_at t1 ms) m ms ∙ e)

among-Cuts :
    (t0 t1 : ℕ) (m : Message) (ms : List Message)
    → t0 ≤ time_of m
    → time_of m < t1
    → All (λ n. t0 ≤ time_of n) ms
    → Cuts t0 t1 ms
    → Cuts t0 t1 (m ∷ ms)
unfolding first_at cut
among-Cuts t0 t1 m ms a b l (h, e) =
    rw (le→ltb (time_of m) t0 a, lt→ltb (time_of m) t1 b, le→leb t0 (time_of m) a)
      (
        omega arith,
        ap (λ (k : ℕ). take k (m ∷ ms)) {y = suc (first_at t1 ms - 0)} (omega arith)
            ∙ ap (λ (ns : List Message). m ∷ ns)
                (sym (ap (λ (i : ℕ). cut i (first_at t1 ms) ms) (first_at-zero t0 ms l)) ∙ e),
      )

past-Cuts :
    (t0 t1 : ℕ) (m : Message) (ms : List Message)
    → t0 ≤ t1
    → t1 ≤ time_of m
    → All (λ n. t1 ≤ time_of n) ms
    → Cuts t0 t1 (m ∷ ms)
unfolding first_at cut
past-Cuts t0 t1 m ms le b l =
    rw
      (
        le→ltb (time_of m) t0 (omega arith),
        le→ltb (time_of m) t1 b,
        le→leb t0 (time_of m) (omega arith),
        within-none t0 t1 ms l,
      )
      (omega arith, refl)

cuts : (t0 t1 : ℕ) (ms : List Message) → t0 ≤ t1 → IsSorted time_of ms → Cuts t0 t1 ms
unfolding first_at cut
cuts t0 t1 [] le s = (omega arith, refl)
cuts t0 t1 (m ∷ ms) le (l, s) =
    let ih = cuts t0 t1 ms le s in
    elim (Bool-cases (ltb (time_of m) t0)) [
      | inl a ↦ earlier-Cuts t0 t1 m ms le (ltb→lt (time_of m) t0 a) ih
      | inr a ↦ elim (Bool-cases (ltb (time_of m) t1)) [
        | inl b ↦
            among-Cuts t0 t1 m ms (not_before (time_of m) t0 a) (ltb→lt (time_of m) t1 b)
              (All-map _ _ (λ n k. later t0 (time_of m) (time_of n) (not_before (time_of m) t0 a) k)
                ms l)
              ih
        | inr b ↦ past-Cuts t0 t1 m ms le (not_before (time_of m) t1 b) (
            All-map _ _ (λ n k. later t1 (time_of m) (time_of n) (not_before (time_of m) t1 b) k) ms
              l)
      ]
    ]

-- On messages that are sorted by time, between returns those from t0 on and before t1, in order, if
-- t0 is not after t1.
pub between-within :
    (t0 t1 : ℕ) (ms : List Message)
    → t0 ≤ t1
    → IsSorted time_of ms
    → between t0 t1 ms ≡ some (within t0 t1 ms)
unfolding between cut
between-within t0 t1 ms le s =
    let (h, e) = cuts t0 t1 ms le s in
    rw (le→ltb (first_at t1 ms) (first_at t0 ms) h) (ap (λ (ns : List Message). some ns) e)
