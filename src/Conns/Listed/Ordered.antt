-- ===== src/Conns/Listed/Ordered.antt =====
-- conns.go: the list of connections, and what it is made of.
use mathlib.Core.List.{Perm}
use a2kit.Common.{ℕ, Bool, List, [], ◌∷◌, Option, some, map, ◌≡◌, refl, All}
use a2kit.Common.Sort.{sort_by, sort_by-IsSorted, sort_by-perm, IsSorted}
use a2kit.Wire.Frame.{Segment}
use a2kit.Capture.Peel.{Addr}
use a2kit.Messages.{read_all}
use mathlib.Core.Path.{ap₂, subst}
use a2kit.Messages.{messages, no_summary, config_of}
use a2kit.Wire.Decoder.Decode.{decode}
use a2kit.Wire.Decoder.Decode.Total.{decode-returns}
use mathlib.Core.List.Perm
use a2kit.Conns.Tally.{Conn, Ledger, no_ledger, tally}
use a2kit.Conns.Tally.Invariant.{IsConn, IsLedger, tally-IsLedger}
use a2kit.Conns.Listed.{Connection, start_of, tally_all, marked, locked, worlds, connections}

tally_all-IsLedger : (ss : List Segment) (l : Ledger) → IsLedger l → IsLedger (tally_all ss l)
unfolding tally_all
tally_all-IsLedger [] l h = h
tally_all-IsLedger (s ∷ ss) l h = tally_all-IsLedger ss (tally s l) (tally-IsLedger s l h)

map-conn :
    (f : Conn → Connection)
    → ((c : Conn) → (f c).conn ≡ c)
    → (cs : List Conn) → map (λ (c : Connection). c.conn) (map f cs) ≡ cs
map-conn f h [] = refl
map-conn f h (c ∷ cs) = ap₂ ◌∷◌ (h c) (map-conn f h cs)

listed-perm :
    (f : Conn → Connection)
    → ((c : Conn) → (f c).conn ≡ c)
    → (cs : List Conn) → Perm (map (λ (c : Connection). c.conn) (sort_by start_of (map f cs))) cs
listed-perm f h cs =
    subst (λ l. Perm (map (λ (c : Connection). c.conn) (sort_by start_of (map f cs))) l)
      (map-conn f h cs) (Perm.map (λ (c : Connection). c.conn) (sort_by-perm start_of (map f cs)))

-- Connections lists a recording whatever its segments are: it returns, for every decompressor and
-- every parser of addresses, the connections that tally counted, each of them once and no other, by
-- the time each began, and in each a refusal comes with a reset and an acknowledged answer with an
-- answer.
pub connections-returns :
    (uncompress : List ℕ → ℕ → Option (List ℕ)) (parse_addr : List ℕ → Option Addr) (client : Bool)
    (ss : List Segment)
    → (cs : List Connection) × (connections uncompress parse_addr client ss ≡ some cs)
      × IsSorted start_of cs
      × Perm (map (λ (c : Connection). c.conn) cs) (tally_all ss no_ledger).conns
      × All IsConn (tally_all ss no_ledger).conns
unfolding connections read_all marked
connections-returns uncompress parse_addr client ss =
    let (fs, d, e, h) = decode-returns uncompress (config_of client) ss in
    let conns = (tally_all ss no_ledger).conns in
    let (ms, sum) = messages fs no_summary in
    let f = marked (locked ms) (worlds uncompress parse_addr ms) in
    let cs = map f conns in
    (
      sort_by start_of cs,
      rw (decode, e) refl,
      sort_by-IsSorted start_of cs,
      listed-perm f (λ c. refl) conns,
      (tally_all-IsLedger ss no_ledger (tt, tt)).1,
    )
