-- ===== src/Analyze/Windows/Cover.antt =====
-- analyze.go: windows, and the times that are in one.
use a2kit.Common.{
  ℕ, ◌+◌, ◌≤◌, ◌<◌, Bool, true, false, ◌&&◌, ◌||◌, ◌≡◌, refl, ◌∙◌, ap, List, [], ◌∷◌, All, All-map,
  leb, arith, if_cases,
}
use a2kit.Common.Sort.{sort_by, insert_by, sort_by-IsSorted, IsSorted}
use a2kit.Analyze.Windows.{windows_loop, windows_of, windows}

abbrev pub inside : ℕ → ℕ × ℕ → Bool
inside t (lo, hi) = leb lo t && leb t hi

-- Whether a time is in one of the windows
abbrev pub in_windows : ℕ → List (ℕ × ℕ) → Bool
in_windows t [] = false
in_windows t (iv ∷ ivs) = inside t iv || in_windows t ivs

-- Whether a time is in a mark's own window
abbrev pub in_marks : ℕ → ℕ → List ℕ → Bool
in_marks t window [] = false
in_marks t window (m ∷ ms) = inside t (m, m + window) || in_marks t window ms

-- Windows in order, with time between each and the next
abbrev pub AreApart : List (ℕ × ℕ) → Type 0
AreApart [] = Unit
AreApart ((lo, hi) ∷ []) = lo ≤ hi
AreApart ((lo, hi) ∷ (lo', hi') ∷ ivs) = (lo ≤ hi) × (hi < lo') × AreApart ((lo', hi') ∷ ivs)

joined :
    (t window lo hi m : ℕ)
    → lo ≤ m
    → m ≤ hi
    → hi ≤ m + window
    → inside t (lo, m + window) ≡ inside t (lo, hi) || inside t (m, m + window)
joined t window lo hi m a b c = ground arith

or_assoc : (a b c : Bool) → (a || b) || c ≡ a || (b || c)
or_assoc true b c = refl
or_assoc false b c = refl

module _ (t window : ℕ) where
  -- A window before the marks to come
  abbrev Before : ℕ × ℕ → List ℕ → Type 0
  Before iv ms = All (λ m. (iv.0 ≤ m) × (iv.1 ≤ m + window)) ms

  before : (m : ℕ) (ms : List ℕ) → All (λ n. m ≤ n) ms → Before (m, m + window) ms
  before m ms h = All-map _ _ (λ n l. (l, omega arith)) ms h

  before' : (lo m : ℕ) (ms : List ℕ) → lo ≤ m → All (λ n. m ≤ n) ms → Before (lo, m + window) ms
  before' lo m ms g h = All-map _ _ (λ n l. (omega arith, omega arith)) ms h

  windows_loop-in :
      (lo hi : ℕ) (ms : List ℕ)
      → IsSorted (λ m. m) ms
      → Before (lo, hi) ms
      → in_windows t (windows_loop window (lo, hi) ms) ≡ inside t (lo, hi) || in_marks t window ms
  unfolding windows_loop
  windows_loop-in lo hi [] s h = refl
  windows_loop-in lo hi (m ∷ ms) (l, s) ((a, b), h) =
      if_cases (λ ivs. in_windows t ivs ≡ inside t (lo, hi) || in_marks t window (m ∷ ms))
        (leb m hi) _ _
        (λ e.
          windows_loop-in lo (m + window) ms s (before' lo m ms a l)
          ∙ ap (λ (x : Bool). x || in_marks t window ms)
              (joined t window lo hi m a (ground arith) b)
          ∙ or_assoc (inside t (lo, hi)) (inside t (m, m + window)) (in_marks t window ms))
        λ _.
          ap (λ (x : Bool). inside t (lo, hi) || x)
            (windows_loop-in m (m + window) ms s (before m ms l))

  windows_of-in :
      (ms : List ℕ)
      → IsSorted (λ m. m) ms
      → in_windows t (windows_of window ms) ≡ in_marks t window ms
  unfolding windows_of
  windows_of-in [] s = refl
  windows_of-in (m ∷ ms) (l, s) = windows_loop-in m (m + window) ms s (before m ms l)

  or_swap : (a b c : Bool) → a || (b || c) ≡ b || (a || c)
  or_swap true true c = refl
  or_swap true false c = refl
  or_swap false b c = refl

  insert_by-in :
      (m : ℕ) (ms : List ℕ)
      → in_marks t window (insert_by (λ n. n) m ms)
        ≡ inside t (m, m + window) || in_marks t window ms
  unfolding insert_by
  insert_by-in m [] = refl
  insert_by-in m (n ∷ ms) =
      let test = λ (l : ℕ). inside t (l, l + window) in
      if_cases (λ ns. in_marks t window ns ≡ test m || in_marks t window (n ∷ ms)) (leb m n) _ _
        (λ _. refl)
        λ _.
          ap (λ (x : Bool). test n || x) (insert_by-in m ms)
          ∙ or_swap (test n) (test m) (in_marks t window ms)

  sort_by-in : (ms : List ℕ) → in_marks t window (sort_by (λ n. n) ms) ≡ in_marks t window ms
  unfolding sort_by
  sort_by-in [] = refl
  sort_by-in (m ∷ ms) =
      insert_by-in m (sort_by (λ n. n) ms)
      ∙ ap (λ (x : Bool). inside t (m, m + window) || x) (sort_by-in ms)

module _ (window : ℕ) where
  -- A first window that is one, and what follows it
  abbrev Joins : ℕ × ℕ → List (ℕ × ℕ) → Type 0
  Joins iv ivs = AreApart (iv ∷ ivs)

  -- Windows, of which the first begins at `lo`
  abbrev BeginsAt : ℕ → List (ℕ × ℕ) → Type 0
  BeginsAt lo [] = ⊥
  BeginsAt lo (iv ∷ ivs) = (iv.0 ≡ lo) × AreApart (iv ∷ ivs)

  begins :
      (iv : ℕ × ℕ) (m : ℕ) (ivs : List (ℕ × ℕ))
      → iv.0 ≤ iv.1
      → iv.1 < m
      → BeginsAt m ivs
      → BeginsAt iv.0 (iv ∷ ivs)
  begins iv m [] a b h = absurd h
  begins iv m (jv ∷ ivs) a b (e, h) = (refl, (a, omega (arith, e), h))

  windows_loop-BeginsAt :
      (lo hi : ℕ) (ms : List ℕ)
      → lo ≤ hi
      → All (λ m. lo ≤ m) ms
      → IsSorted (λ m. m) ms
      → BeginsAt lo (windows_loop window (lo, hi) ms)
  unfolding windows_loop
  windows_loop-BeginsAt lo hi [] a h s = (refl, a)
  windows_loop-BeginsAt lo hi (m ∷ ms) a (b, h) (l, s) =
      if_cases (BeginsAt lo) (leb m hi) _ _
        (λ _. windows_loop-BeginsAt lo (m + window) ms (omega arith) h s)
        λ e.
          begins (lo, hi) m _ a (ground arith)
            (windows_loop-BeginsAt m (m + window) ms (omega arith) l s)

  BeginsAt-AreApart : (lo : ℕ) (ivs : List (ℕ × ℕ)) → BeginsAt lo ivs → AreApart ivs
  BeginsAt-AreApart lo [] h = tt
  BeginsAt-AreApart lo (iv ∷ ivs) h = h.1

  windows_of-AreApart : (ms : List ℕ) → IsSorted (λ m. m) ms → AreApart (windows_of window ms)
  unfolding windows_of
  windows_of-AreApart [] s = tt
  windows_of-AreApart (m ∷ ms) (l, s) =
      BeginsAt-AreApart m _ (windows_loop-BeginsAt m (m + window) ms (omega arith) l s)

-- The merged windows cover the marks' windows and nothing else, and no time twice: a time is in one
-- of them just when it is in the window of some mark, and they come in order, with time between each
-- and the next, whatever the order of the marks.
pub windows-AreApart :
    (marks : List ℕ) (window : ℕ)
    → ((t : ℕ) → in_windows t (windows marks window) ≡ in_marks t window marks)
      × AreApart (windows marks window)
unfolding windows
windows-AreApart marks window =
    let s = sort_by-IsSorted (λ m. m) marks in
    (
      λ t. windows_of-in t window (sort_by (λ m. m) marks) s ∙ sort_by-in t window marks,
      windows_of-AreApart window (sort_by (λ m. m) marks) s,
    )
