-- ===== src/Wire/Scan/Answers.antt =====
-- wire/scan.go: what find answers.
use mathlib.Core.Path.{subst}
use a2kit.Common.{
  ℕ, zero, suc, ◌+◌, ◌-◌, ◌≤◌, ◌<◌, ◌≡◌, ◌≢◌, max, refl, List, [], ◌∷◌, All, Option, none, some,
  arith, Bool-cases, inl, inr, ==_iff, sym, ◌==◌, ◌++◌,
}
use a2kit.Wire.Scan.{Verdict, Scan, recheck, look, look_on, find}

module _ (at : ℕ → Verdict) where
  -- An offset that answers yes, or none from `lo` to `hi` that does
  abbrev Answers : ℕ → ℕ → Option ℕ → Type 0
  Answers lo hi none = (i : ℕ) → lo ≤ i → i < hi → at i ≢ Verdict.yes
  Answers lo hi (some i) = at i ≡ Verdict.yes

  Answers-first :
      (lo hi : ℕ) (o : Option ℕ) → at lo ≢ Verdict.yes → Answers (lo + 1) hi o → Answers lo hi o
  Answers-first lo hi none n h = λ i a b. elim (Bool-cases (i == lo)) [
    | inl e ↦ subst (λ j. at j ≢ Verdict.yes) (sym ((==_iff i lo).0 e)) n
    | inr e ↦ h i (ground arith) b
  ]
  Answers-first lo hi (some j) n h = h

  -- The loop's rounds after an offset that does not answer yes
  past-Answers :
      (k : ℕ) (lo : ℕ) (o : Option ℕ)
      → at lo ≢ Verdict.yes
      → Answers (lo + 1) (lo + 1 + k) o
      → Answers lo (lo + suc k) o
  past-Answers k lo o n h =
      let e : lo + 1 + k ≡ lo + suc k = omega arith in
      Answers-first lo (lo + suc k) o n (subst (λ hi. Answers (lo + 1) hi o) e h)

  step-Answers :
      (k : ℕ) (s : Scan) (v : Verdict)
      → at s.done ≡ v
      → ((t : Scan) → Answers t.done (t.done + k) (look at k t).0)
      → Answers s.done
          (s.done + suc k)
          (elim v as (λ x. Option ℕ × Scan) [
            | Verdict.no ↦ look at k (record s { done = s.done + 1 })
            | Verdict.maybe ↦
                look at k (record { done = s.done + 1; pending = s.pending ++ (s.done ∷ []) })
            | Verdict.yes ↦ (some s.done, s)
          ]).0
  step-Answers k s Verdict.no e rec =
      past-Answers k s.done _ (λ y. cc) (rec (record s { done = s.done + 1 }))
  step-Answers k s Verdict.maybe e rec =
      past-Answers k s.done _ (λ y. cc)
        (rec (record { done = s.done + 1; pending = s.pending ++ (s.done ∷ []) }))
  step-Answers k s Verdict.yes e rec = e

  look-Answers : (k : ℕ) (s : Scan) → Answers s.done (s.done + k) (look at k s).0
  unfolding look
  look-Answers zero s = λ i a b. absurd (omega arith)
  look-Answers (suc k) s = step-Answers k s (at s.done) refl (λ t. look-Answers k t)

  -- What the pending offsets answer
  abbrev Pending : List ℕ → Option ℕ → Type 0
  Pending is none = All (λ i. at i ≢ Verdict.yes) is
  Pending is (some i) = at i ≡ Verdict.yes

  Pending-past :
      (i : ℕ) (is : List ℕ) (o : Option ℕ) → at i ≢ Verdict.yes → Pending is o → Pending (i ∷ is) o
  Pending-past i is none n h = (n, h)
  Pending-past i is (some j) n h = h

  -- recheck's round at an offset that answers `v`
  round-Pending :
      (i : ℕ) (is : List ℕ) (v : Verdict) (r : Option ℕ × List ℕ)
      → at i ≡ v
      → Pending is r.0
      → Pending
          (i ∷ is)
          (elim v as (λ x. Option ℕ × List ℕ) [
            | Verdict.no ↦ r
            | Verdict.maybe ↦ (r.0, i ∷ r.1)
            | Verdict.yes ↦ (some i, [])
          ]).0
  round-Pending i is Verdict.no r e h = Pending-past i is r.0 (λ y. cc) h
  round-Pending i is Verdict.maybe r e h = Pending-past i is r.0 (λ y. cc) h
  round-Pending i is Verdict.yes r e h = e

  recheck-Pending : (is : List ℕ) → Pending is (recheck at is).0
  unfolding recheck
  recheck-Pending [] = tt
  recheck-Pending (i ∷ is) = round-Pending i is (at i) (recheck at is) refl (recheck-Pending is)

  -- What find answers, for the pending offsets and those from `lo` to `to`
  abbrev Finds : ℕ → ℕ → List ℕ → Option ℕ → Type 0
  Finds lo to is none =
      All (λ i. at i ≢ Verdict.yes) is × ((i : ℕ) → lo ≤ i → i < to → at i ≢ Verdict.yes)
  Finds lo to is (some i) = at i ≡ Verdict.yes

  both :
      (lo to : ℕ) (is : List ℕ) (o : Option ℕ)
      → All (λ i. at i ≢ Verdict.yes) is
      → Answers lo (lo + (to - lo)) o
      → Finds lo to is o
  both lo to is none h g = (h, λ i a b. g i a (omega arith))
  both lo to is (some i) h g = g

  look_on-Finds :
      (from to : ℕ) (r : Option ℕ × List ℕ) (s : Scan)
      → Pending s.pending r.0
      → Finds (max s.done from) to s.pending (look_on at from to r s).0
  unfolding look_on
  look_on-Finds from to (some i, kept) s h = h
  look_on-Finds from to (none, kept) s h =
      both (max s.done from) to s.pending _ h
        (look-Answers (to - max s.done from) (record { done = max s.done from; pending = kept }))

  find-Finds : (from to : ℕ) (s : Scan) → Finds (max s.done from) to s.pending (find at from to s).0
  unfolding find
  find-Finds from to s = look_on-Finds from to (recheck at s.pending) s (recheck-Pending s.pending)

-- What find returns is an offset that answers yes.
pub find-yes :
    (at : ℕ → Verdict) (from to : ℕ) (s t : Scan) (i : ℕ)
    → find at from to s ≡ (some i, t)
    → at i ≡ Verdict.yes
find-yes at from to s t i e =
    subst (λ r. Finds at (max s.done from) to s.pending r.0) e (find-Finds at from to s)

-- Where find finds nothing, no pending offset answers yes, and no offset in its range that it had
-- not looked at before.
pub find-none :
    (at : ℕ → Verdict) (from to : ℕ) (s t : Scan) (i : ℕ)
    → find at from to s ≡ (none, t)
    → max s.done from ≤ i
    → i < to
    → All (λ j. at j ≢ Verdict.yes) s.pending × (at i ≢ Verdict.yes)
find-none at from to s t i e lo hi =
    let f : Finds at (max s.done from) to s.pending none =
      subst (λ r. Finds at (max s.done from) to s.pending r.0) e (find-Finds at from to s) in
    (f.0, f.1 i lo hi)
