-- ===== src/Conns/Tests.antt =====
-- Runs of the connections on small inputs.
use mathlib.Core.List.{Perm}
use a2kit.Common.{
  ◌<◌, ◌≤◌, ◌≢◌, ℕ, ◌%◌, ◌-◌, ◌+◌, ◌^◌, ◌≡◌, ◌⊎◌, ◌↔◌, refl, true, false, List, [], ◌∷◌, Option,
  none, some, All, arith, take, map,
}
use a2kit.Common.Sort.{IsSorted}
use a2kit.Wire.Frame.{AddrPort, Segment}
use a2kit.Capture.Peel.{Addr}
use a2kit.Conns.Edge.{Edge, no_edge, advance}
use a2kit.Conns.Furthest.{Stands, reach, sent_all, furthest, advance-Stands, sent_all-IsGapless}
use a2kit.Conns.Pair.{pair_of, same_pair}
use a2kit.Conns.Symmetric.{same_pair-pair_of}
use a2kit.Conns.Tally.{copy_gap, no_ledger, tally, begun}
use a2kit.Conns.Tally.Invariant.{IsConn, IsLedger, tally-IsLedger}
use a2kit.Conns.Tally.Again.{again_at, IsNew, tally-tally}
use a2kit.Conns.Status.{status, failed, broken, failed-status}
use a2kit.Conns.Listed.{Connection, start_of, tally_all, connections}
use a2kit.Conns.Listed.Ordered.{connections-returns}

-- Stand-ins for the decompressor, which keeps a block, and for the parser of addresses
abbrev stored : List ℕ → ℕ → Option (List ℕ)
stored block n = some (take n block)

abbrev parse_addr : List ℕ → Option Addr
parse_addr host = none

abbrev server : AddrPort
server = record { bits = 32; addr = 1; port = 7777 }

abbrev client : AddrPort
client = record { bits = 32; addr = 2; port = 50000 }

abbrev segment_at : ℕ → AddrPort → AddrPort → ℕ → ℕ → List ℕ → Segment
segment_at time src dst flags seq p = record {
  time = time;
  src = src;
  dst = dst;
  flags = flags;
  if_index = 0;
  seq = seq;
  ack = 0;
  payload = p;
}

abbrev syn : Segment
syn = segment_at 5 client server 2 99 []

-- An edge near the end of the sequence numbers, and a segment past it
abbrev near_wrap : Edge
near_wrap = record { end = 2 ^ 32 - 2; seen = true }

advance-Stands_example :
    ((advance near_wrap ((2 ^ 32 - 3) % 2 ^ 32) 5).0 ≡ (reach (some (2 ^ 32 - 2)) (2 ^ 32 - 3) 5).0)
    × Stands
        (advance near_wrap ((2 ^ 32 - 3) % 2 ^ 32) 5).1
        (some (reach (some (2 ^ 32 - 2)) (2 ^ 32 - 3) 5).1)
advance-Stands_example =
    advance-Stands near_wrap (some (2 ^ 32 - 2)) (2 ^ 32 - 3) 5 (refl, refl)
      (omega arith, omega arith)

-- Ten bytes, a retransmit of the last four, and five more
sent_all-IsGapless_example :
    sent_all no_edge ((100, 10) ∷ (106, 4) ∷ (110, 5) ∷ []) + 100
    ≡ furthest 110 ((106, 4) ∷ (110, 5) ∷ [])
sent_all-IsGapless_example =
    sent_all-IsGapless 100 10 ((106, 4) ∷ (110, 5) ∷ [])
      (omega arith, (omega arith, omega arith), (omega arith, (omega arith, omega arith), tt))

abbrev adapter : ℕ
adapter = 3

same_pair-pair_of_example :
    (same_pair (pair_of client server adapter) (pair_of server client adapter) ≡ true) ↔ (
      (adapter ≡ adapter)
      × (((client ≡ server) × (server ≡ client)) ⊎ ((client ≡ client) × (server ≡ server))))
same_pair-pair_of_example = same_pair-pair_of client server server client adapter adapter

tally-IsLedger_example : IsLedger (tally syn no_ledger)
tally-IsLedger_example = tally-IsLedger syn no_ledger (tt, tt)

none_yet : IsNew syn no_ledger.conns
none_yet i c h = absurd (ground arith)

tally-tally_example :
    (syn.time + 9999999 < syn.time + copy_gap
      → tally (again_at (syn.time + 9999999) syn) (tally syn no_ledger) ≡ tally syn no_ledger)
    × (syn.time + copy_gap ≤ syn.time + 9999999
        → tally (again_at (syn.time + 9999999) syn) (tally syn no_ledger) ≢ tally syn no_ledger)
tally-tally_example = tally-tally syn (syn.time + 9999999) no_ledger refl none_yet

failed-status_example : failed (status (begun syn)) ≡ broken (begun syn)
failed-status_example = failed-status (begun syn)

abbrev run : List Segment
run = syn ∷ segment_at 6 server client 18 7 [] ∷ segment_at 7 client server 16 100 (3 ∷ 1 ∷ []) ∷ []

connections-returns_example :
    (cs : List Connection) × (connections stored parse_addr false run ≡ some cs)
    × IsSorted start_of cs
    × Perm (map (λ (c : Connection). c.conn) cs) (tally_all run no_ledger).conns
    × All IsConn (tally_all run no_ledger).conns
connections-returns_example = connections-returns stored parse_addr false run
