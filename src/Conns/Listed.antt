-- ===== src/Conns/Listed.antt =====
-- conns.go: connections, from the segments of a recording to the list that is printed.
pub mod Ordered
use Prim.Native.String.{String}
use a2kit.Common.{
  ℕ, Bool, true, false, ◌||◌, List, [], ◌∷◌, Option, none, some, bit_at, map, if◌then◌else◌,
}
use a2kit.Common.Results.{◌>>=◌}
use a2kit.Common.Sort.{sort_by}
use a2kit.Wire.Frame.{AddrPort, same_addr, Segment}
use a2kit.Game.Events.{Event, redirect, Redirect}
use a2kit.Game.Parse.{Parsed, event, unread, layout}
use a2kit.Messages.{Message, read_all}
use a2kit.Capture.Peel.{Addr}
use a2kit.Conns.Pair.{Pair, pair_of, same_pair}
use a2kit.Conns.Tally.{Conn, Ledger, no_ledger, tally}
use a2kit.Conns.Status.{status}

-- Connection: `conn` holds the fields that tally counts.
pub record Connection : Type 0 where
  pub conn : Conn
  pub game : Bool
  pub status : String

-- The ledger, after every ReadSegment of a run
unfoldable pub tally_all : List Segment → Ledger → Ledger
unfolding tally
tally_all [] l = l
tally_all (s ∷ ss) l = tally_all ss (tally s l)

-- The keys of the map locked
unfoldable pub locked : List Message → List Pair
unfolding pair_of
locked [] = []
locked (m ∷ ms) =
    let rest = locked ms in
    if bit_at m.frame.flags 0 then pair_of m.frame.src m.frame.dst m.frame.if_index ∷ rest else rest

has_pair : Pair → List Pair → Bool
unfolding same_pair
has_pair k [] = false
has_pair k (l ∷ ls) = same_pair l k || has_pair k ls

has_addr : AddrPort → List AddrPort → Bool
unfolding same_addr
has_addr a [] = false
has_addr a (b ∷ bs) = same_addr b a || has_addr a bs

abbrev pub start_of : Connection → ℕ
start_of c = c.conn.start

-- A connection with its marks
unfoldable pub marked : List Pair → List AddrPort → Conn → Connection
unfolding has_pair has_addr pair_of status
marked pairs worlds c = record {
  conn = c;
  game = has_pair (pair_of c.client c.server c.if_index) pairs || has_addr c.server worlds;
  status = status c;
}

-- `uncompress` is the framer's parameter, and `parse_addr` is netip.ParseAddr.
module _ (uncompress : List ℕ → ℕ → Option (List ℕ)) (parse_addr : List ℕ → Option Addr) where
  -- Redirect.Addr
  addr_of : Redirect → Option AddrPort
  addr_of r =
      parse_addr r.host >>= λ a. some (record { bits = a.bits; addr = a.addr; port = r.port })

  -- Where a message sends the client
  world_of : Parsed → Option AddrPort
  unfolding addr_of
  world_of (event (redirect r)) = addr_of r
  world_of p = none

  with_world : Option AddrPort → List AddrPort → List AddrPort
  with_world none rest = rest
  with_world (some a) rest = a ∷ rest

  -- The keys of the map worlds
  unfoldable pub worlds : List Message → List AddrPort
  unfolding world_of with_world
  worlds [] = []
  worlds (m ∷ ms) = with_world (world_of m.read) (worlds ms)

  -- connections, of a source whose reader ends without an error
  unfoldable pub connections : Bool → List Segment → Option (List Connection)
  unfolding read_all tally_all locked worlds marked
  connections client ss = read_all uncompress client ss >>= λ (ms, sum, st).
      some (sort_by start_of (map (marked (locked ms) (worlds ms)) (tally_all ss no_ledger).conns))
