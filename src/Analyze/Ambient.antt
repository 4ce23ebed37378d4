-- ===== src/Analyze/Ambient.antt =====
-- analyze.go: ambient, what the server sends whether the player acts or not.
use a2kit.Common.{
  ℕ, ◌+◌, ◌-◌, ◌*◌, Bool, true, false, not, ◌&&◌, List, [], ◌∷◌, leb, ◌==◌, if◌then◌else◌, length,
  contains, map,
}
use a2kit.Common.Sort.{sort_by}
use a2kit.Messages.{Message}
use a2kit.Analyze.Packets.{Packet, second, distinct, filter}
use a2kit.Analyze.Bursts.{unusual}

-- The seconds in which the player acts
unfoldable pub acting : List ℕ → List Packet → List ℕ
unfolding distinct unusual
acting usual sent = distinct (map (λ p. second p.t) (unusual usual sent))

-- The messages of the quiet seconds, or of the others
in_seconds : Bool → List ℕ → List Message → List Message
in_seconds acts secs [] = []
in_seconds acts secs (m ∷ ms) =
    let rest = in_seconds acts secs ms in
    let hit = contains secs (second m.frame.time) in
    if (if acts then hit else not hit) then m ∷ rest else rest

-- The count of a type in one of the maps, 0 where there is none
count_of : ℕ → List Message → ℕ
count_of op [] = 0
count_of op (m ∷ ms) = let rest = count_of op ms in if m.frame.opcode == op then rest + 1 else rest

-- The test on a type, with its counts in the quiet seconds and in the others
is_ambient : ℕ → ℕ → ℕ → ℕ → Bool
is_ambient quiet acts n in_acting = leb quiet (2 * n) && leb (in_acting * quiet) (2 * n * acts)

-- ambient, with its fields First, Last, Messages, Usual and sent. Every acting second is one of the
-- seconds from First to Last, so that the seconds left are no negative number.
unfoldable pub ambient : ℕ → ℕ → List Message → List ℕ → List Packet → List ℕ
unfolding acting in_seconds count_of is_ambient distinct filter sort_by
ambient first last messages usual sent =
    let secs = acting usual sent in
    let acts = length secs in
    let quiet = second last - second first + 1 - acts in
    let in_quiet = in_seconds false secs messages in
    let in_acting = in_seconds true secs messages in
    if acts == 0
    then []
    else sort_by (λ n. n)
        (filter (λ op. is_ambient quiet acts (count_of op in_quiet) (count_of op in_acting))
          (distinct (map (λ m. m.frame.opcode) in_quiet)))
