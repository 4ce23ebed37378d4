-- ===== src/Conns/Symmetric.antt =====
-- conns.go: pairOf, which forgets the way a packet goes.
use a2kit.Common.{arith, ℕ, true, false, ◌≡◌, refl, sym, ◌∙◌, ◌↔◌, ◌⊎◌, inl, inr, if_cases}
use a2kit.Wire.Frame.{AddrPort, same_addr}
use a2kit.Conns.Pair.{Pair, pair_of, same_pair, later}

pub same_addr→eq : (a b : AddrPort) → same_addr a b ≡ true → a ≡ b
unfolding same_addr
same_addr→eq a b h = ground arith

pub same_addr_refl : (a : AddrPort) → same_addr a a ≡ true
unfolding same_addr
same_addr_refl a = ground arith

-- The order of addresses is total
later-antisym : (a b : AddrPort) → later a b ≡ false → later b a ≡ false → a ≡ b
unfolding later
later-antisym a b h g = ground arith

later-asym : (a b : AddrPort) → later a b ≡ true → later b a ≡ false
unfolding later
later-asym a b h = ground arith

-- A pair whose first end comes first
ordered :
    (a b : AddrPort) (i : ℕ)
    → later a b ≡ false
    → pair_of a b i ≡ record { lo = a; hi = b; if_index = i }
unfolding pair_of
ordered a b i h = rw h

pub same_pair→eq : (k l : Pair) → same_pair k l ≡ true → k ≡ l
unfolding same_pair same_addr
same_pair→eq k l h = ground arith

pub same_pair_refl : (k : Pair) → same_pair k k ≡ true
unfolding same_pair same_addr
same_pair_refl k = ground arith

pub pair_of-sym : (a b : AddrPort) (i : ℕ) → pair_of a b i ≡ pair_of b a i
unfolding pair_of
pair_of-sym a b i =
    if_cases (λ p. p ≡ pair_of b a i) (later a b) _ _ (λ h. sym (ordered b a i (later-asym a b h)))
      λ h.
        if_cases (λ p. record { lo = a; hi = b; if_index = i } ≡ p) (later b a) _ _ (λ g. refl)
          λ g. rw (later-antisym a b h g)

abbrev pub Ends : AddrPort → AddrPort → ℕ → Pair → Type 0
Ends a b i k = (k.if_index ≡ i) × (((k.lo ≡ a) × (k.hi ≡ b)) ⊎ ((k.lo ≡ b) × (k.hi ≡ a)))

pair_of-Ends : (a b : AddrPort) (i : ℕ) → Ends a b i (pair_of a b i)
unfolding pair_of
pair_of-Ends a b i =
    if_cases (Ends a b i) (later a b) _ _ (λ _. (refl, inr (refl, refl)))
      (λ _. (refl, inl (refl, refl)))

two_pairs :
    (a b c d : AddrPort) (i j : ℕ) (k : Pair)
    → Ends a b i k
    → Ends c d j k
    → (i ≡ j) × (((a ≡ c) × (b ≡ d)) ⊎ ((a ≡ d) × (b ≡ c)))
two_pairs a b c d i j k (e, inl (p, q)) (g, inl (r, s)) = (sym e ∙ g, inl (sym p ∙ r, sym q ∙ s))
two_pairs a b c d i j k (e, inl (p, q)) (g, inr (r, s)) = (sym e ∙ g, inr (sym p ∙ r, sym q ∙ s))
two_pairs a b c d i j k (e, inr (p, q)) (g, inl (r, s)) = (sym e ∙ g, inr (sym q ∙ s, sym p ∙ r))
two_pairs a b c d i j k (e, inr (p, q)) (g, inr (r, s)) = (sym e ∙ g, inl (sym q ∙ s, sym p ∙ r))

-- Two segments have the same pair just when they were seen on the same adapter and have the same two
-- ends, whichever of the ends each of them comes from.
pub same_pair-pair_of :
    (a b c d : AddrPort) (i j : ℕ)
    → (same_pair (pair_of a b i) (pair_of c d j) ≡ true)
      ↔ ((i ≡ j) × (((a ≡ c) × (b ≡ d)) ⊎ ((a ≡ d) × (b ≡ c))))
same_pair-pair_of a b c d i j = (there, back)
  where
    there :
        same_pair (pair_of a b i) (pair_of c d j) ≡ true
        → (i ≡ j) × (((a ≡ c) × (b ≡ d)) ⊎ ((a ≡ d) × (b ≡ c)))
    there h =
        two_pairs a b c d i j (pair_of a b i) (pair_of-Ends a b i)
          (rw (same_pair→eq (pair_of a b i) (pair_of c d j) h) (pair_of-Ends c d j))

    back :
        (i ≡ j) × (((a ≡ c) × (b ≡ d)) ⊎ ((a ≡ d) × (b ≡ c)))
        → same_pair (pair_of a b i) (pair_of c d j) ≡ true
    back (e, inl (p, q)) = rw (e, p, q) (same_pair_refl (pair_of c d j))
    back (e, inr (p, q)) = rw (e, p, q, pair_of-sym d c j) (same_pair_refl (pair_of c d j))
