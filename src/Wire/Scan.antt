-- ===== src/Wire/Scan.antt =====
-- wire/scan.go: a search over a buffer that grows between writes.
pub mod Answers
use a2kit.Common.{ℕ, zero, suc, ◌+◌, ◌-◌, max, Option, none, some, List, [], ◌∷◌, ◌++◌}

-- wire/framer.go: an answer that the bytes so far may not settle
pub data Verdict : Type 0 where
  no : Verdict
  maybe : Verdict
  yes : Verdict

pub record Scan : Type 0 where
  pub done : ℕ
  pub pending : List ℕ

abbrev pub new_scan : Scan
new_scan = record { done = 0; pending = [] }

module _ (at : ℕ → Verdict) where
  -- The loop over the pending offsets: the first yes, or the offsets kept.
  recheck : List ℕ → Option ℕ × List ℕ
  recheck [] = (none, [])
  recheck (i ∷ rest) =
      let (found, kept) = recheck rest in
      elim (at i) [ no ↦ (found, kept) | maybe ↦ (found, i ∷ kept) | yes ↦ (some i, []) ]

  -- The loop over the new offsets, with the rounds left first.
  look : ℕ → Scan → Option ℕ × Scan
  look zero s = (none, s)
  look (suc k) s =
      let next = s.done + 1 in
      elim (at s.done) [
        | no ↦ look k (record s { done = next })
        | maybe ↦ look k (record { done = next; pending = s.pending ++ (s.done ∷ []) })
        | yes ↦ (some s.done, s)
      ]

  look_on : ℕ → ℕ → Option ℕ × List ℕ → Scan → Option ℕ × Scan
  unfolding look
  look_on from to (some i, kept) s = (some i, s)
  look_on from to (none, kept) s =
      let done = max s.done from in look (to - done) (record { done = done; pending = kept })

  -- find
  unfoldable pub find : ℕ → ℕ → Scan → Option ℕ × Scan
  unfolding recheck look_on
  find from to s = look_on from to (recheck s.pending) s
