-- ===== src/Analyze/Bursts.antt =====
-- analyze.go: Actions, the moments the player acted and what answered them.
pub mod Parted
pub mod Ordered
pub mod Answered
use a2kit.Common.{
  ℕ, ◌+◌, Bool, not, List, [], ◌∷◌, ◌++◌, Option, none, some, ltb, leb, ◌==◌, if◌then◌else◌, length,
  contains, map, min,
}
use a2kit.Common.Results.{◌>>=◌}
use a2kit.Messages.{Message}
use a2kit.Analyze.Packets.{Packet}
use a2kit.Analyze.Between.{between}

abbrev pub burst_gap : ℕ
burst_gap = 250000000

-- The loop over the packets, with the last burst apart: its packets, and the last of them. A burst is
-- its first packet and the others.
grow : Packet → List Packet → Packet → List Packet → List (Packet × List Packet)
grow first others last [] = (first, others) ∷ []
grow first others last (p ∷ ps) =
    let joined = grow first (others ++ (p ∷ [])) p ps in
    let apart = grow p [] p ps in
    if leb p.t (last.t + burst_gap) then joined else (first, others) ∷ apart

unfoldable pub unusual : List ℕ → List Packet → List Packet
unusual usual [] = []
unusual usual (p ∷ ps) =
    let rest = unusual usual ps in if contains usual p.size then rest else p ∷ rest

bursts_of : List Packet → List (Packet × List Packet)
unfolding grow
bursts_of [] = []
bursts_of (p ∷ ps) = grow p [] p ps

unfoldable pub bursts : List ℕ → List Packet → List (Packet × List Packet)
unfolding bursts_of unusual
bursts usual sent = bursts_of (unusual usual sent)

pub record Count : Type 0 where
  pub type : ℕ
  pub n : ℕ

-- One message more of a type
pub counted : ℕ → List Count → List Count
counted op [] = record { type = op; n = 1 } ∷ []
counted op (c ∷ cs) =
    let rest = counted op cs in if c.type == op then record c { n = c.n + 1 } ∷ cs else c ∷ rest

-- What a list of messages adds to an action's answers
pub answered_by : List ℕ → List Message → List Count → List Count
unfolding counted
answered_by background [] cs = cs
answered_by background (m ∷ ms) cs =
    answered_by background ms
      (if contains background m.frame.opcode then cs else counted m.frame.opcode cs)

pub record Action : Type 0 where
  pub at : ℕ
  pub sent : List ℕ
  pub answered : List Count

-- Where the answers to a burst end
pub answers_end : ℕ → ℕ → List (Packet × List Packet) → ℕ
answers_end at window [] = at + window
answers_end at window ((p, ps) ∷ bs) = if ltb p.t (at + window) then p.t else at + window

-- An action, once between has answered
pub acted : List ℕ → Packet → List Packet → List Message → Action
unfolding answered_by
acted background p ps ms = record {
  at = p.t;
  sent = map (λ q. q.size) (p ∷ ps);
  answered = answered_by background ms [];
}

actions_of : List Message → List ℕ → ℕ → List (Packet × List Packet) → Option (List Action)
unfolding between answers_end acted
actions_of messages background window [] = some []
actions_of messages background window ((p, ps) ∷ bs) =
    between p.t (answers_end p.t window bs) messages >>= λ ms.
    actions_of messages background window bs >>= λ rest. some (acted background p ps ms ∷ rest)

-- Actions, on the fields Messages, sent, Usual and Background; `none` where between panics
unfoldable pub actions : List Message → List Packet → List ℕ → List ℕ → ℕ → Option (List Action)
unfolding actions_of bursts
actions messages sent usual background window =
    actions_of messages background window (bursts usual sent)
