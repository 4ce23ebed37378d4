-- ===== src/Analyze/Analysis.antt =====
-- analyze.go: Analyze, from a recording's messages and packets to the game's connection.
pub mod Bounds
use a2kit.Common.{
  ℕ, ◌+◌, Bool, true, false, not, ◌&&◌, ◌||◌, List, [], ◌∷◌, ◌++◌, Option, none, some, ltb, leb,
  ◌==◌, if◌then◌else◌, length, bit_at, min, max,
}
use a2kit.Common.Results.{◌>>=◌}
use a2kit.Common.Sort.{sort_by}
use a2kit.Wire.Frame.{AddrPort, Segment}
use a2kit.Wire.Decoder.State.{Stats}
use a2kit.Messages.{Message, Summary, read_all}
use a2kit.Analyze.Packets.{Flow, same_flow, Packet, Tee, no_tee, keep_all, sent_on, usual_sizes}
use a2kit.Analyze.Ambient.{ambient}
use a2kit.Analyze.Between.HalfOpen.{time_of}

abbrev pub flow_of : Message → Flow
flow_of m = record { src = m.frame.src; dst = m.frame.dst; if_index = m.frame.if_index }

-- The zero flow, which the loop for the connection begins with
abbrev no_addr : AddrPort
no_addr = record { bits = 0; addr = 0; port = 0 }

abbrev pub no_flow : Flow
no_flow = record { src = no_addr; dst = no_addr; if_index = 0 }

-- locked, a map from flows to counts
bump : Flow → List (Flow × ℕ) → List (Flow × ℕ)
unfolding same_flow
bump k [] = (k, 1) ∷ []
bump k ((j, n) ∷ m) = let rest = bump k m in if same_flow j k then (j, n + 1) ∷ m else (j, n) ∷ rest

count_at : Flow → List (Flow × ℕ) → ℕ
unfolding same_flow
count_at k [] = 0
count_at k ((j, n) ∷ m) = let rest = count_at k m in if same_flow j k then n else rest

locked : List Message → List (Flow × ℕ) → List (Flow × ℕ)
unfolding bump
locked [] m = m
locked (x ∷ xs) m = locked xs (if bit_at x.frame.flags 0 then bump (flow_of x) m else m)

-- The flow that the most messages are locked on, the first of them
busiest : List (Flow × ℕ) → Flow → List Message → Flow
unfolding count_at
busiest m srv [] = srv
busiest m srv (x ∷ xs) =
    busiest m (if ltb (count_at srv m) (count_at (flow_of x) m) then flow_of x else srv) xs

messages_on : Flow → List Message → List Message
unfolding same_flow
messages_on k [] = []
messages_on k (m ∷ ms) =
    let rest = messages_on k ms in if same_flow (flow_of m) k then m ∷ rest else rest

-- The first and the last time, moved by the packets
earliest : ℕ → List Packet → ℕ
earliest t [] = t
earliest t (p ∷ ps) = earliest (if ltb p.t t then p.t else t) ps

latest : ℕ → List Packet → ℕ
latest t [] = t
latest t (p ∷ ps) = latest (if ltb t p.t then p.t else t) ps

last_time : ℕ → List Message → ℕ
last_time t [] = t
last_time t (m ∷ ms) = last_time (time_of m) ms

pub record Analysis : Type 0 where
  pub server : AddrPort
  pub client : AddrPort
  pub pairs : ℕ
  pub start : ℕ
  pub first : ℕ
  pub last : ℕ
  pub messages : List Message
  pub packets : ℕ
  pub usual : List ℕ
  pub background : List ℕ
  pub summary : Summary × (Bool × Stats)
  pub sent : List Packet

-- Analyze, past the choice of the connection; `none` stands for a[0] of no messages.
chosen : Flow → ℕ → ℕ → List Message → List Packet → Summary × (Bool × Stats) → Option Analysis
unfolding earliest latest last_time ambient usual_sizes
chosen srv pairs start [] sent sum = none
chosen srv pairs start (m ∷ ms) sent sum =
    let first = earliest (time_of m) sent in
    let last = latest (last_time (time_of m) ms) sent in
    some (record {
      server = srv.src;
      client = srv.dst;
      pairs = pairs;
      start = start;
      first = first;
      last = last;
      messages = m ∷ ms;
      packets = length sent;
      usual = usual_sizes sent;
      background = ambient first last (m ∷ ms) (usual_sizes sent) sent;
      summary = sum;
      sent = sent;
    })

-- Analyze, on the messages and what the tee kept; `none` for no game connection
unfoldable pub analysis : List Message → Summary × (Bool × Stats) → Tee → Option Analysis
unfolding locked busiest messages_on sent_on sort_by chosen
analysis [] sum tee = none
analysis (m ∷ ms) sum tee =
    let pairs = locked (m ∷ ms) [] in
    let srv = busiest pairs no_flow (m ∷ ms) in
    let back : Flow = record { src = srv.dst; dst = srv.src; if_index = srv.if_index } in
    if length pairs == 0
    then none
    else chosen srv (length pairs) (time_of m) (sort_by time_of (messages_on srv (m ∷ ms)))
        (sent_on back tee.segs) sum

-- Analyze, of a source whose reader ends without an error
unfoldable pub analyze :
    (List ℕ → ℕ → Option (List ℕ)) → Bool → List Segment → Option (Option Analysis)
unfolding read_all keep_all analysis
analyze uncompress client ss = read_all uncompress client ss >>= λ (ms, sum, st).
    some (analysis ms (sum, st) (keep_all ss no_tee))
