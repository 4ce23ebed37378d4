-- ===== src/Analyze/Bursts/Answered.antt =====
-- analyze.go: Actions, against the messages that each action is to have as its answers.
use a2kit.Common.{
  ℕ, ◌+◌, ◌≤◌, ◌≡◌, refl, ap, ◌&&◌, ◌∙◌, Bool, true, false, List, [], ◌∷◌, some, if_cases, arith,
  contains, map, min, if◌then◌else◌, ◌==◌,
}
use a2kit.Common.Sort.{IsSorted}
use a2kit.Messages.{Message}
use a2kit.Analyze.Packets.{Packet}
use a2kit.Analyze.Between.HalfOpen.{time_of, within}
use a2kit.Analyze.Bursts.{Count, counted, answered_by, answers_end, acted, actions, bursts, Action}
use a2kit.Analyze.Bursts.Ordered.{sent_at, actions_within, actions-within}

-- The messages that the counts of a type stand for
abbrev pub total_of : ℕ → List Count → ℕ
total_of op [] = 0
total_of op (c ∷ cs) = (if c.type == op then c.n else 0) + total_of op cs

-- The counts of a type
abbrev pub counts_of : ℕ → List Count → ℕ
counts_of op [] = 0
counts_of op (c ∷ cs) = (if c.type == op then 1 else 0) + counts_of op cs

-- The messages of a type
abbrev pub messages_of : ℕ → List Message → ℕ
messages_of op [] = 0
messages_of op (m ∷ ms) = (if m.frame.opcode == op then 1 else 0) + messages_of op ms

-- The end of an action's window, or the next action, whichever is first
abbrev pub first_end : ℕ → ℕ → List (Packet × List Packet) → ℕ
first_end at window [] = at + window
first_end at window ((q, qs) ∷ bs) = min (at + window) q.t

-- An action for each burst, with the burst's first time and its sizes, and for each type that is not
-- of the background one count, of the messages of the type from that time on and before the end
abbrev pub AreAnswered :
    List Message → List ℕ → ℕ → List (Packet × List Packet) → List Action → Type 0
AreAnswered messages background window [] [] = Unit
AreAnswered messages background window [] (a ∷ acts) = ⊥
AreAnswered messages background window ((p, ps) ∷ bs) [] = ⊥
AreAnswered messages background window ((p, ps) ∷ bs) (a ∷ acts) =
    (a.at ≡ p.t)
    × (a.sent ≡ map (λ q. q.size) (p ∷ ps))
    × ((op : ℕ)
        → (counts_of op a.answered ≤ 1)
          × (total_of op a.answered ≡ (
              if contains background op
              then 0
              else messages_of op (within p.t (first_end p.t window bs) messages))))
    × AreAnswered messages background window bs acts

total_of-counted :
    (op o : ℕ) (cs : List Count)
    → total_of op (counted o cs) ≡ (if o == op then 1 else 0) + total_of op cs
unfolding counted
total_of-counted op o [] = omega arith
total_of-counted op o (c ∷ cs) = ground (arith, total_of-counted op o cs)

counts_of-counted :
    (op o : ℕ) (cs : List Count)
    → counts_of op (counted o cs) ≡ (if o == op && counts_of op cs == 0 then 1 else counts_of op cs)
unfolding counted
counts_of-counted op o [] = ground arith
counts_of-counted op o (c ∷ cs) = ground (arith, counts_of-counted op o cs)

counts_of-answered_by :
    (op : ℕ) (background : List ℕ) (ms : List Message) (cs : List Count)
    → counts_of op cs ≤ 1
    → counts_of op (answered_by background ms cs) ≤ 1
unfolding answered_by
counts_of-answered_by op background [] cs h = h
counts_of-answered_by op background (m ∷ ms) cs h = counts_of-answered_by op background ms _ (
    if_cases (λ l. counts_of op l ≤ 1) (contains background m.frame.opcode) cs
      (counted m.frame.opcode cs) (λ _. h)
      λ _. ground (arith, h, counts_of-counted op m.frame.opcode cs))

-- What one message adds
total_of-one :
    (op o : ℕ) (b c : Bool) (cs : List Count)
    → (o ≡ op → b ≡ c)
    → total_of op (if b then cs else counted o cs)
      ≡ total_of op cs + (if c then 0 else (if o == op then 1 else 0))
total_of-one op o true true cs h = omega arith
total_of-one op o true false cs h = ground (arith, h)
total_of-one op o false true cs h = ground (arith, h, total_of-counted op o cs)
total_of-one op o false false cs h = omega (arith, total_of-counted op o cs)

both :
    (c : Bool) (new old n k : ℕ)
    → new ≡ old + (if c then 0 else n)
    → new + (if c then 0 else k) ≡ old + (if c then 0 else n + k)
both true new old n k h = omega (arith, h)
both false new old n k h = omega (arith, h)

total_of-answered_by :
    (op : ℕ) (background : List ℕ) (ms : List Message) (cs : List Count)
    → total_of op (answered_by background ms cs)
      ≡ total_of op cs + (if contains background op then 0 else messages_of op ms)
unfolding answered_by
total_of-answered_by op background [] cs = ground arith
total_of-answered_by op background (m ∷ ms) cs =
    let o = m.frame.opcode in
    let next = if contains background o then cs else counted o cs in
    total_of-answered_by op background ms next
    ∙ both (contains background op) (total_of op next) (total_of op cs) (if o == op then 1 else 0)
        (messages_of op ms)
        (total_of-one op o (contains background o) (contains background op) cs
          λ e. ap (contains background) e)

first_end-answers_end :
    (at window : ℕ) (bs : List (Packet × List Packet))
    → answers_end at window bs ≡ first_end at window bs
unfolding answers_end
first_end-answers_end at window [] = refl
first_end-answers_end at window ((q, qs) ∷ bs) = ground arith

actions_within-AreAnswered :
    (messages : List Message) (background : List ℕ) (window : ℕ) (bs : List (Packet × List Packet))
    → AreAnswered messages background window bs (actions_within messages background window bs)
unfolding acted
actions_within-AreAnswered messages background window [] = tt
actions_within-AreAnswered messages background window ((p, ps) ∷ bs) = (
  refl,
  refl,
  λ op. (
    counts_of-answered_by op background (within p.t (answers_end p.t window bs) messages) []
        (omega arith),
    rw (first_end-answers_end p.t window bs) (
        total_of-answered_by op background (within p.t (first_end p.t window bs) messages) []
        ∙ omega arith),
  ),
  actions_within-AreAnswered messages background window bs,
)

-- Actions answers on every recording whose client's packets are in the order of time, with its
-- messages sorted by time: there is an action for each burst, with its first packet's time and its
-- packets' sizes, and it has for each type one count at most. The count of a type of the background
-- is none, and that of another type is the number of its messages from the action's time on and
-- before the end of the window or the next action, whichever is first.
pub actions-AreAnswered :
    (messages : List Message) (sent : List Packet) (usual background : List ℕ) (window : ℕ)
    → IsSorted time_of messages
    → IsSorted sent_at sent
    → (acts : List Action) × (actions messages sent usual background window ≡ some acts)
      × AreAnswered messages background window (bursts usual sent) acts
actions-AreAnswered messages sent usual background window s h = (
  actions_within messages background window (bursts usual sent),
  actions-within messages sent usual background window s h,
  actions_within-AreAnswered messages background window (bursts usual sent),
)
