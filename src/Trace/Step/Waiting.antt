-- ===== src/Trace/Step/Waiting.antt =====
-- trace.go: the casts that wait for their end, as entries of the map of casts.
use text.Mathlib.Text.{◌==◌ as str_eq}
use a2kit.Common.{
  ℕ, ◌+◌, Bool, true, false, ◌&&◌, ◌≡◌, refl, List, [], ◌∷◌, ◌++◌, Option, none, some, arith, ◌==◌,
  if◌then◌else◌, if_cases, Bool-cases, inl, inr, ℤ,
}
use a2kit.Trace.Entry.{
  by_entity, Label, word, code, client_code, code_name, bytes, npc_number, entity_number, Args,
  TraceEvent, Key, same_key,
}
use a2kit.Trace.Step.{cast_of, without}

unfoldable pub is_word_cast : Label → Bool
is_word_cast (word w) = str_eq w "Cast"
is_word_cast (code n) = false
is_word_cast (client_code n) = false
is_word_cast (code_name n) = false
is_word_cast (bytes n) = false
is_word_cast (npc_number n) = false
is_word_cast (entity_number n) = false

-- An entry for a cast, on the track of an entity
unfoldable pub is_cast : TraceEvent → Bool
unfolding is_word_cast
is_cast e = e.pid == by_entity && is_word_cast e.label

-- Casts that wait, each once
abbrev pub AreWaiting : List (Key × TraceEvent) → Type 0
AreWaiting [] = Unit
AreWaiting ((k, c) ∷ casts) = (cast_of k casts ≡ none) × AreWaiting casts

same_key→eq : (j k : Key) → same_key j k ≡ true → j ≡ k
same_key→eq j k h = ground arith

without-none :
    (k : Key) (casts : List (Key × TraceEvent)) → cast_of k casts ≡ none → without k casts ≡ casts
unfolding cast_of without
without-none k [] h = refl
without-none k ((j, c) ∷ casts) h = ground (arith, without-none k casts)

pub cast_of-without :
    (k : Key) (casts : List (Key × TraceEvent)) → cast_of k (without k casts) ≡ none
unfolding cast_of without
cast_of-without k [] = refl
cast_of-without k ((j, c) ∷ casts) = elim (Bool-cases (same_key j k)) [
  | inl y ↦ rw y (cast_of-without k casts)
  | inr n ↦ rw (n, n) (cast_of-without k casts)
]

if_none :
    (b : Bool) (c : TraceEvent) (o : Option TraceEvent)
    → (if b then some c else o) ≡ none
    → (b ≡ false) × (o ≡ none)
if_none true c o h = absurd (ground arith)
if_none false c o h = (refl, h)

cast_of-keeps :
    (j k : Key) (casts : List (Key × TraceEvent))
    → cast_of j casts ≡ none
    → cast_of j (without k casts) ≡ none
unfolding cast_of without
cast_of-keeps j k [] h = refl
cast_of-keeps j k ((i, c) ∷ casts) h =
    let (n, tail) = if_none (same_key i j) c (cast_of j casts) h in
    if_cases (λ l. cast_of j l ≡ none) (same_key i k) (without k casts) ((i, c) ∷ without k casts)
      (λ _. cast_of-keeps j k casts tail) λ _. rw n (cast_of-keeps j k casts tail)

pub without-AreWaiting :
    (k : Key) (casts : List (Key × TraceEvent)) → AreWaiting casts → AreWaiting (without k casts)
unfolding without
without-AreWaiting k [] h = tt
without-AreWaiting k ((j, c) ∷ casts) (u, h) =
    if_cases AreWaiting (same_key j k) (without k casts) ((j, c) ∷ without k casts)
      (λ _. without-AreWaiting k casts h)
      λ _. (cast_of-keeps j k casts u, without-AreWaiting k casts h)

-- `P` picks casts by their actor, their time and what they show.
module _ (P : ℕ → ℤ → Args → Bool) where
  -- 1 for an entry for a cast that is picked
  unfoldable pub one : TraceEvent → ℕ
  unfolding is_cast
  one e = if is_cast e && P e.tid e.ts e.args then 1 else 0

  -- The entries for casts that are picked
  unfoldable pub casts_in : List TraceEvent → ℕ
  unfolding one
  casts_in [] = 0
  casts_in (e ∷ es) = one e + casts_in es

  pub casts_in-append : (es gs : List TraceEvent) → casts_in (es ++ gs) ≡ casts_in es + casts_in gs
  unfolding casts_in
  casts_in-append [] gs = omega arith
  casts_in-append (e ∷ es) gs = omega (arith, casts_in-append es gs)

  -- Those that wait
  unfoldable pub waiting_in : List (Key × TraceEvent) → ℕ
  unfolding one
  waiting_in [] = 0
  waiting_in ((k, c) ∷ casts) = one c + waiting_in casts

  -- Of an event that waits, if one does
  abbrev pub held : Option TraceEvent → ℕ
  held none = 0
  held (some c) = one c

  pub waiting_in-without :
      (k : Key) (casts : List (Key × TraceEvent))
      → AreWaiting casts
      → waiting_in (without k casts) + held (cast_of k casts) ≡ waiting_in casts
  unfolding cast_of without waiting_in
  waiting_in-without k [] h = omega arith
  waiting_in-without k ((j, c) ∷ casts) (u, h) = elim (Bool-cases (same_key j k)) [
    | inl y ↦ rw (y, without-none k casts (rw (← same_key→eq j k y) u)) (omega arith)
    | inr n ↦ rw n (omega (arith, waiting_in-without k casts h))
  ]
