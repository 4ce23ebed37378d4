-- ===== src/Conns/Furthest.antt =====
-- conns.go: edge, beside a furthest byte that is counted without wrapping.
use a2kit.Common.{
  ℕ, ◌+◌, ◌-◌, ◌%◌, ◌^◌, ◌≤◌, ◌<◌, min, max, ◌≡◌, refl, true, false, List, [], ◌∷◌, Option, none,
  some, arith, sub32, ap, ltb, Bool-cases, ltb→lt, inl, inr,
}
use a2kit.Wire.Decoder.State.{after}
use a2kit.Conns.Edge.{Edge, no_edge, advance}

-- An edge that stands for a count of bytes, `none` before the first segment
abbrev pub Stands : Edge → Option ℕ → Type 0
Stands e none = e.seen ≡ false
Stands e (some far) = (e.seen ≡ true) × (e.end ≡ far % 2 ^ 32)

-- What advance means: the bytes past the furthest one, and the furthest byte from now on
abbrev pub reach : Option ℕ → ℕ → ℕ → ℕ × ℕ
reach none a n = (n, a + n)
reach (some far) a n = (min n (a + n - far), max far (a + n))

-- A segment that ends within half of the sequence numbers of the furthest byte
abbrev pub IsNear : Option ℕ → ℕ → Type 0
IsNear none end = Unit
IsNear (some far) end = (end < far + 2 ^ 31) × (far ≤ end + 2 ^ 31)

ltb→ge : (a b : ℕ) → ltb a b ≡ false → b ≤ a
ltb→ge a b h = ground arith

max-past : (far x : ℕ) → far < x → x ≡ max far x
max-past far x h = omega arith

max-behind : (far x : ℕ) → x ≤ far → far ≡ max far x
max-behind far x h = omega arith

min-behind : (far x n : ℕ) → x ≤ far → 0 ≡ min n (x - far)
min-behind far x n h = omega arith

end-% : (a n : ℕ) → (a % 2 ^ 32 + n) % 2 ^ 32 ≡ (a + n) % 2 ^ 32
end-% a n = omega arith

sub32-past : (x far : ℕ) → far < x → x < far + 2 ^ 31 → sub32 (x % 2 ^ 32) (far % 2 ^ 32) ≡ x - far
sub32-past x far h g = omega arith

after-behind : (x far : ℕ) → x ≤ far → far ≤ x + 2 ^ 31 → after (x % 2 ^ 32) (far % 2 ^ 32) ≡ false
unfolding after
after-behind x far h g = ground arith

after-past : (x far : ℕ) → far < x → x < far + 2 ^ 31 → after (x % 2 ^ 32) (far % 2 ^ 32) ≡ true
unfolding after
after-past x far h g = ground arith

-- An edge of 32 bits does what a count of all the bytes would: if the edge stands for the furthest
-- byte, and a segment of n bytes from byte a on ends within 2^31 bytes of it, then advance returns
-- the number of the segment's bytes past the furthest one, and its edge stands for the new one.
pub advance-Stands :
    (e : Edge) (o : Option ℕ) (a n : ℕ)
    → Stands e o
    → IsNear o (a + n)
    → ((advance e (a % 2 ^ 32) n).0 ≡ (reach o a n).0)
      × Stands (advance e (a % 2 ^ 32) n).1 (some (reach o a n).1)
unfolding advance
advance-Stands e none a n s h = rw (s, end-% a n) (refl, (refl, refl))
advance-Stands e (some far) a n (seen, s) (near, back) = elim (Bool-cases (ltb far (a + n))) [
  | inl past ↦
      rw
        (
          seen,
          s,
          end-% a n,
          after-past (a + n) far (ltb→lt far (a + n) past) near,
          sub32-past (a + n) far (ltb→lt far (a + n) past) near,
        )
        (
          refl,
          (
            refl,
            ap (λ (m : ℕ). m % 2 ^ 32) {y = max far (a + n)}
                (max-past far (a + n) (ltb→lt far (a + n) past)),
          ),
        )
  | inr behind ↦
      rw (seen, s, end-% a n, after-behind (a + n) far (ltb→ge far (a + n) behind) back)
        (
          min-behind far (a + n) n (ltb→ge far (a + n) behind),
          (refl, ap (λ (m : ℕ). m % 2 ^ 32) (max-behind far (a + n) (ltb→ge far (a + n) behind))),
        )
]

-- The bytes that tally adds up over one side's segments, each given by its first byte and its length
abbrev pub sent_all : Edge → List (ℕ × ℕ) → ℕ
sent_all e [] = 0
sent_all e ((a, n) ∷ sends) = let (new, e') = advance e (a % 2 ^ 32) n in new + sent_all e' sends

abbrev pub furthest : ℕ → List (ℕ × ℕ) → ℕ
furthest far [] = far
furthest far ((a, n) ∷ sends) = furthest (max far (a + n)) sends

-- Segments that leave no gap, in any order and as often as they may come again
abbrev pub IsGapless : ℕ → List (ℕ × ℕ) → Type 0
IsGapless far [] = Unit
IsGapless far ((a, n) ∷ sends) =
    (a ≤ far) × IsNear (some far) (a + n) × IsGapless (max far (a + n)) sends

gap_sum :
    (far a n new sum all : ℕ)
    → a ≤ far
    → new ≡ min n (a + n - far)
    → sum + max far (a + n) ≡ all
    → new + sum + far ≡ all
gap_sum far a n new sum all h e g = omega arith

first_sum : (a n new sum all : ℕ) → new ≡ n → sum + (a + n) ≡ all → new + sum + a ≡ all
first_sum a n new sum all e g = omega arith

sent_all-furthest :
    (e : Edge) (far : ℕ) (sends : List (ℕ × ℕ))
    → Stands e (some far)
    → IsGapless far sends
    → sent_all e sends + far ≡ furthest far sends
sent_all-furthest e far [] s h = omega arith
sent_all-furthest e far ((a, n) ∷ sends) s (start, near, h) =
    let (new, stands) = advance-Stands e (some far) a n s near in
    let ih = sent_all-furthest (advance e (a % 2 ^ 32) n).1 (max far (a + n)) sends stands h in
    gap_sum far a n _ _ _ start new ih

-- What a side is said to have sent is the distance from its first byte to its furthest one, past
-- every retransmit: for a first segment from byte a on, and segments after it that each begin at or
-- before the furthest byte and end within 2^31 bytes of it.
pub sent_all-IsGapless :
    (a n : ℕ) (sends : List (ℕ × ℕ))
    → IsGapless (a + n) sends
    → sent_all no_edge ((a, n) ∷ sends) + a ≡ furthest (a + n) sends
sent_all-IsGapless a n sends h =
    let (new, stands) = advance-Stands no_edge none a n refl tt in
    let ih = sent_all-furthest (advance no_edge (a % 2 ^ 32) n).1 (a + n) sends stands h in
    first_sum a n _ _ _ new ih
