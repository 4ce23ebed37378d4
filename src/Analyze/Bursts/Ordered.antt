-- ===== src/Analyze/Bursts/Ordered.antt =====
-- analyze.go: Actions, on packets and messages in the order of time.
use a2kit.Common.{
  ℕ, ◌+◌, ◌≤◌, ◌≡◌, refl, List, [], ◌∷◌, ◌++◌, some, All, leb, ltb, if_cases, arith, contains,
}
use a2kit.Common.Sort.{IsSorted}
use a2kit.Messages.{Message}
use a2kit.Analyze.Packets.{Packet}
use a2kit.Analyze.Between.HalfOpen.{time_of, within, between-within}
use a2kit.Analyze.Bursts.{
  burst_gap, grow, unusual, bursts_of, bursts, answers_end, acted, actions_of, actions, Action,
}

abbrev pub sent_at : Packet → ℕ
sent_at p = p.t

-- Bursts, of which each begins no earlier than the one before
abbrev InOrder : List (Packet × List Packet) → Type 0
InOrder [] = Unit
InOrder (b ∷ []) = Unit
InOrder (b ∷ c ∷ bs) = (sent_at b.0 ≤ sent_at c.0) × InOrder (c ∷ bs)

-- Bursts in order, none before a time
abbrev From : ℕ → List (Packet × List Packet) → Type 0
From t [] = Unit
From t (b ∷ bs) = (t ≤ sent_at b.0) × InOrder (b ∷ bs)

from :
    (p : Packet) (ps : List Packet) (bs : List (Packet × List Packet))
    → From (sent_at p) bs
    → InOrder ((p, ps) ∷ bs)
from p ps [] h = tt
from p ps (b ∷ bs) h = h

grow-From :
    (t : ℕ) (p : Packet) (ps : List Packet) (l : Packet) (qs : List Packet)
    → t ≤ sent_at p
    → sent_at p ≤ sent_at l
    → All (λ q. sent_at l ≤ sent_at q) qs
    → IsSorted sent_at qs
    → From t (grow p ps l qs)
unfolding grow
grow-From t p ps l [] a b h s = (a, tt)
grow-From t p ps l (q ∷ qs) a b (h, hs) (m, s) =
    if_cases (From t) (leb q.t (l.t + burst_gap)) _ _
      (λ _. grow-From t p (ps ++ (q ∷ [])) q qs a (omega arith) m s)
      λ _. (
        a,
        from p ps (grow q [] q qs)
            (grow-From (sent_at p) q [] q qs (omega arith) (omega arith) m s),
      )

unusual-All :
    (P : Packet → Type 0) (usual : List ℕ) (ps : List Packet) → All P ps → All P (unusual usual ps)
unfolding unusual
unusual-All P usual [] h = tt
unusual-All P usual (p ∷ ps) (h, hs) =
    if_cases (All P) (contains usual p.size) _ _ (λ _. unusual-All P usual ps hs)
      λ _. (h, unusual-All P usual ps hs)

unusual-IsSorted :
    (usual : List ℕ) (ps : List Packet) → IsSorted sent_at ps → IsSorted sent_at (unusual usual ps)
unfolding unusual
unusual-IsSorted usual [] s = tt
unusual-IsSorted usual (p ∷ ps) (h, s) =
    if_cases (IsSorted sent_at) (contains usual p.size) _ _ (λ _. unusual-IsSorted usual ps s)
      λ _. (unusual-All (λ q. sent_at p ≤ sent_at q) usual ps h, unusual-IsSorted usual ps s)

bursts_of-InOrder : (ps : List Packet) → IsSorted sent_at ps → InOrder (bursts_of ps)
unfolding bursts_of
bursts_of-InOrder [] s = tt
bursts_of-InOrder (p ∷ ps) (h, s) =
    begun (grow p [] p ps) (grow-From (sent_at p) p [] p ps (omega arith) (omega arith) h s)
  where
    begun : (bs : List (Packet × List Packet)) → From (sent_at p) bs → InOrder bs
    begun [] h = tt
    begun (b ∷ bs) h = h.1

answers_end-le :
    (p : Packet) (ps : List Packet) (window : ℕ) (bs : List (Packet × List Packet))
    → InOrder ((p, ps) ∷ bs)
    → p.t ≤ answers_end p.t window bs
unfolding answers_end
answers_end-le p ps window [] h = omega arith
answers_end-le p ps window ((q, qs) ∷ bs) h =
    if_cases (λ e. p.t ≤ e) (ltb q.t (p.t + window)) q.t (p.t + window) (λ _. h.0) λ _. omega arith

-- Actions, with a filter in place of between
abbrev pub actions_within : List Message → List ℕ → ℕ → List (Packet × List Packet) → List Action
actions_within messages background window [] = []
actions_within messages background window ((p, ps) ∷ bs) =
    acted background p ps (within p.t (answers_end p.t window bs) messages)
    ∷ actions_within messages background window bs

tail : (b : Packet × List Packet) (bs : List (Packet × List Packet)) → InOrder (b ∷ bs) → InOrder bs
tail b [] h = tt
tail b (c ∷ bs) h = h.1

actions_of-within :
    (messages : List Message) (background : List ℕ) (window : ℕ) (bs : List (Packet × List Packet))
    → IsSorted time_of messages
    → InOrder bs
    → actions_of messages background window bs ≡ some (actions_within messages background window bs)
unfolding actions_of
actions_of-within messages background window [] s h = refl
actions_of-within messages background window ((p, ps) ∷ bs) s h = rw (
  between-within p.t (answers_end p.t window bs) messages (answers_end-le p ps window bs h) s,
  actions_of-within messages background window bs s (tail (p, ps) bs h),
)

-- Actions answers on every recording whose client's packets are in the order of time: with its
-- messages sorted by time, each action has the messages from its beginning on and before the end of
-- its window or the next action, whichever is first, less those of the background.
pub actions-within :
    (messages : List Message) (sent : List Packet) (usual background : List ℕ) (window : ℕ)
    → IsSorted time_of messages
    → IsSorted sent_at sent
    → actions messages sent usual background window
      ≡ some (actions_within messages background window (bursts usual sent))
unfolding actions bursts
actions-within messages sent usual background window s h =
    actions_of-within messages background window (bursts_of (unusual usual sent)) s
      (bursts_of-InOrder (unusual usual sent) (unusual-IsSorted usual sent h))
