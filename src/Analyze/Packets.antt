-- ===== src/Analyze/Packets.antt =====
-- analyze.go: flow, packet and tee, and the sizes that the client always sends.
use a2kit.Common.{
  ℕ, ◌+◌, ◌*◌, ◌/◌, ◌%◌, ◌^◌, Bool, true, ◌&&◌, List, [], ◌∷◌, ◌++◌, Option, none, some, ltb, ◌==◌,
  if◌then◌else◌, length, contains, map,
}
use a2kit.Common.Sort.{sort_by}
use a2kit.Wire.Frame.{AddrPort, same_addr, Segment}
use a2kit.Wire.Decoder.State.{after}

pub record Flow : Type 0 where
  pub src : AddrPort
  pub dst : AddrPort
  pub if_index : ℕ

unfoldable pub same_flow : Flow → Flow → Bool
unfolding same_addr
same_flow a b = same_addr a.src b.src && same_addr a.dst b.dst && a.if_index == b.if_index

pub record Packet : Type 0 where
  pub t : ℕ
  pub size : ℕ

-- `segs` is newest last, and `ends` an association list with the newest first.
pub record Tee : Type 0 where
  pub segs : List (Flow × Packet)
  pub ends : List (Flow × ℕ)

abbrev pub no_tee : Tee
no_tee = record { segs = []; ends = [] }

end_of : Flow → List (Flow × ℕ) → Option ℕ
unfolding same_flow
end_of k [] = none
end_of k ((j, e) ∷ ends) = let rest = end_of k ends in if same_flow j k then some e else rest

-- Whether a segment ends past what its flow has sent
goes_past : ℕ → Option ℕ → Bool
unfolding after
goes_past end none = true
goes_past end (some seen) = after end seen

-- ReadSegment's part past the read
unfoldable pub keep : Segment → Tee → Tee
unfolding end_of goes_past
keep s tee =
    let k : Flow = record { src = s.src; dst = s.dst; if_index = s.if_index } in
    let end = (s.seq + length s.payload) % 2 ^ 32 in
    if length s.payload == 0
    then tee
    else if goes_past end (end_of k tee.ends)
    then record {
      ends = (k, end) ∷ tee.ends;
      segs = tee.segs ++ ((k, record { t = s.time; size = length s.payload }) ∷ []);
    }
    else tee

unfoldable pub keep_all : List Segment → Tee → Tee
unfolding keep
keep_all [] tee = tee
keep_all (s ∷ ss) tee = keep_all ss (keep s tee)

-- The packets of a flow
unfoldable pub sent_on : Flow → List (Flow × Packet) → List Packet
unfolding same_flow
sent_on k [] = []
sent_on k ((j, p) ∷ segs) = let rest = sent_on k segs in if same_flow j k then p ∷ rest else rest

-- Unix, from another second than 1970
abbrev pub second : ℕ → ℕ
second t = t / 1000000000

-- The keys of a map, each once
unfoldable pub distinct : List ℕ → List ℕ
distinct [] = []
distinct (x ∷ xs) = let rest = distinct xs in if contains rest x then rest else x ∷ rest

unfoldable pub filter : (ℕ → Bool) → List ℕ → List ℕ
filter P [] = []
filter P (x ∷ xs) = let rest = filter P xs in if P x then x ∷ rest else rest

-- The seconds in which a size is sent, each once per packet
seconds_of : ℕ → List Packet → List ℕ
seconds_of size [] = []
seconds_of size (p ∷ ps) =
    let rest = seconds_of size ps in if p.size == size then second p.t ∷ rest else rest

-- More than half the seconds
unfoldable pub in_most : List Packet → ℕ → Bool
unfolding distinct seconds_of
in_most sent size =
    ltb (length (distinct (map (λ p. second p.t) sent)))
      (2 * length (distinct (seconds_of size sent)))

unfoldable pub usual_sizes : List Packet → List ℕ
unfolding distinct filter in_most sort_by
usual_sizes sent = sort_by (λ n. n) (filter (in_most sent) (distinct (map (λ p. p.size) sent)))
