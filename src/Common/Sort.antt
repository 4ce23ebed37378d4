-- ===== src/Common/Sort.antt =====
-- A stable sort by a number, what slices.SortStableFunc of the standard library does.
use Prim.Native.Nat.{ℕ, ◌≤◌}
use mathlib.Core.Path.{◌≡◌}
use mathlib.Core.Bool.{true, false}
use mathlib.Core.List.{List, [], ◌∷◌, Perm}
use mathlib.Core.List.Perm
use native.Mathlib.Omega.{arith}
use a2kit.Common.Tests.{leb, if◌then◌else◌, if_cases}
use a2kit.Common.Lists.{All, All-map}

module _ {ℓ} {A : Type ℓ} (key : A → ℕ) where
  -- An element, before the first one that its key does not exceed
  unfoldable pub insert_by : A → List A → List A
  insert_by x [] = x ∷ []
  insert_by x (y ∷ ys) =
      let rest = insert_by x ys in if leb (key x) (key y) then x ∷ y ∷ ys else y ∷ rest

  unfoldable pub sort_by : List A → List A
  unfolding insert_by
  sort_by [] = []
  sort_by (x ∷ xs) = insert_by x (sort_by xs)

  abbrev pub IsSorted : List A → Type 0
  IsSorted [] = Unit
  IsSorted (x ∷ xs) = All (λ y. key x ≤ key y) xs × IsSorted xs

  insert_by-perm : (x : A) (xs : List A) → Perm (insert_by x xs) (x ∷ xs)
  unfolding insert_by
  insert_by-perm x [] = Perm.rfl
  insert_by-perm x (y ∷ ys) =
      if_cases (λ zs. Perm zs (x ∷ y ∷ ys)) (leb (key x) (key y)) (x ∷ y ∷ ys) (y ∷ insert_by x ys)
        (λ _. Perm.rfl) λ _. Perm.trans (Perm.cons y (insert_by-perm x ys)) (Perm.swap x y ys)

  insert_by-All : (P : A → Type 0) (x : A) (xs : List A) → P x → All P xs → All P (insert_by x xs)
  unfolding insert_by
  insert_by-All P x [] h g = (h, tt)
  insert_by-All P x (y ∷ ys) h (g, gs) =
      if_cases (All P) (leb (key x) (key y)) (x ∷ y ∷ ys) (y ∷ insert_by x ys) (λ _. (h, (g, gs)))
        λ _. (g, insert_by-All P x ys h gs)

  le-of-leb : (a b : ℕ) → leb a b ≡ true → a ≤ b
  le-of-leb a b h = ground arith

  le-of-not : (a b : ℕ) → leb a b ≡ false → b ≤ a
  le-of-not a b h = ground arith

  insert_by-IsSorted : (x : A) (xs : List A) → IsSorted xs → IsSorted (insert_by x xs)
  unfolding insert_by
  insert_by-IsSorted x [] h = (tt, tt)
  insert_by-IsSorted x (y ∷ ys) (h, hs) =
      if_cases IsSorted (leb (key x) (key y)) (x ∷ y ∷ ys) (y ∷ insert_by x ys)
        (λ e.
          let l = le-of-leb (key x) (key y) e in
          ((l, All-map _ _ (λ z g. omega (arith, l, g)) ys h), (h, hs)))
        λ e. (
          insert_by-All (λ z. key y ≤ key z) x ys (le-of-not (key x) (key y) e) h,
          insert_by-IsSorted x ys hs,
        )

  pub sort_by-IsSorted : (xs : List A) → IsSorted (sort_by xs)
  unfolding sort_by
  sort_by-IsSorted [] = tt
  sort_by-IsSorted (x ∷ xs) = insert_by-IsSorted x (sort_by xs) (sort_by-IsSorted xs)

  pub sort_by-perm : (xs : List A) → Perm (sort_by xs) xs
  unfolding sort_by
  sort_by-perm [] = Perm.rfl
  sort_by-perm (x ∷ xs) = Perm.trans (insert_by-perm x (sort_by xs)) (Perm.cons x (sort_by-perm xs))
