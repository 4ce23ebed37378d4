-- ===== src/Conns/Tally.antt =====
-- conns.go: conn, and the ledger's tally. A connection is known by its index in the list of all.
pub mod Invariant
pub mod Copies
pub mod Again
use a2kit.Common.{
  ℕ, zero, suc, ◌+◌, Bool, true, false, not, ◌&&◌, ◌||◌, List, [], ◌∷◌, ◌++◌, Option, none, some,
  ltb, ◌==◌, if◌then◌else◌, length, get_elem?, bit_at,
}
use a2kit.Wire.Frame.{AddrPort, same_addr, Segment, fin_bit, syn_bit, rst_bit, ack_bit}
use a2kit.Conns.Edge.{Edge, no_edge, advance}
use a2kit.Conns.Pair.{Pair, pair_of, same_pair, Header, header_of, same_header}

abbrev pub copy_gap : ℕ
copy_gap = 10000000

-- Connection and conn, less Game and Status. `sent_n` and `received_n` are Sent and Received, and
-- `last` holds last and lastAt, `none` for the zero header, which is no segment's.
pub record Conn : Type 0 where
  pub client : AddrPort
  pub server : AddrPort
  pub if_index : ℕ
  pub start : ℕ
  pub end : ℕ
  pub syn : ℕ
  pub syn_ack : ℕ
  pub fin : Bool
  pub rst : Bool
  pub sent_n : ℕ
  pub received_n : ℕ
  pub sent : Edge
  pub received : Edge
  pub acked : Bool
  pub refused : Bool
  pub last : Option (Header × ℕ)

unfoldable pub copied : Segment → Conn → Bool
unfolding same_header
copied s c = elim c.last [
  | none ↦ false
  | some (h, at) ↦ same_header (header_of s) h && ltb s.time (at + copy_gap)
]

-- A SYN that is no answer to one
abbrev pub is_syn : Segment → Bool
is_syn s = bit_at s.flags syn_bit && not (bit_at s.flags ack_bit)

-- Whether a connection's first segment is its server's
abbrev from_server : Segment → Bool
from_server s =
    bit_at s.flags syn_bit && bit_at s.flags ack_bit || not (is_syn s) && ltb s.src.port s.dst.port

unfoldable pub begun : Segment → Conn
begun s = record {
  client = if from_server s then s.dst else s.src;
  server = if from_server s then s.src else s.dst;
  if_index = s.if_index;
  start = s.time;
  end = 0;
  syn = 0;
  syn_ack = 0;
  fin = false;
  rst = false;
  sent_n = 0;
  received_n = 0;
  sent = no_edge;
  received = no_edge;
  acked = false;
  refused = false;
  last = none;
}

-- tally's switch on the SYN flags
pub shaken : Segment → Bool → Conn → Conn
shaken s client c =
    if is_syn s && client
    then record c { syn = c.syn + 1 }
    else if bit_at s.flags syn_bit && not client
    then record c { syn_ack = c.syn_ack + 1 }
    else if client && bit_at s.flags ack_bit && ltb 0 c.syn_ack
    then record c { acked = true }
    else c

pub closed : Segment → Bool → Conn → Conn
closed s client c = record c {
  fin = c.fin || bit_at s.flags fin_bit;
  rst = c.rst || bit_at s.flags rst_bit;
  refused = c.refused || bit_at s.flags rst_bit && not client && c.syn_ack == 0;
}

-- The bytes of a segment that are new, on the side that sent it
pub moved : Segment → Bool → Conn → Conn
unfolding advance
moved s client c =
    if client
    then (let (n, e) = advance c.sent s.seq (length s.payload) in
        record c { sent_n = c.sent_n + n; sent = e })
    else (let (n, e) = advance c.received s.seq (length s.payload) in
        record c { received_n = c.received_n + n; received = e })

-- tally, from a segment's connection on
unfoldable pub counted : Segment → Conn → Conn
unfolding copied shaken closed moved
counted s c =
    let client = same_addr s.src c.client in
    let c' = record c { last = some (header_of s, s.time); end = s.time } in
    if copied s c then c else moved s client (closed s client (shaken s client c'))

-- `current` is the map, an association list with the newest first.
pub record Ledger : Type 0 where
  pub current : List (Pair × ℕ)
  pub conns : List Conn

abbrev pub no_ledger : Ledger
no_ledger = record { current = []; conns = [] }

unfoldable pub find : Pair → List (Pair × ℕ) → Option ℕ
unfolding same_pair
find k [] = none
find k ((j, i) ∷ current) = let rest = find k current in if same_pair j k then some i else rest

unfoldable pub update : ℕ → (Conn → Conn) → List Conn → List Conn
update i f [] = []
update zero f (c ∷ conns) = f c ∷ conns
update (suc i) f (c ∷ conns) = c ∷ update i f conns

-- Whether a segment makes a new connection where one is open
unfoldable pub reuses : Segment → Conn → Bool
reuses s c = is_syn s && (c.fin || c.rst)

-- A connection that a segment begins
begin : Segment → Pair → Ledger → Ledger
unfolding begun counted
begin s k l = record {
  current = (k, length l.conns) ∷ l.current;
  conns = l.conns ++ (counted s (begun s) ∷ []);
}

-- tally, on the connection that an index of the map gives
at_conn : Segment → Pair → Ledger → ℕ → Option Conn → Ledger
unfolding begin update counted reuses
at_conn s k l i none = begin s k l
at_conn s k l i (some c) =
    if reuses s c then begin s k l else record l { conns = update i (counted s) l.conns }

-- tally, on what the map gives
at_pair : Segment → Pair → Ledger → Option ℕ → Ledger
unfolding at_conn begin
at_pair s k l none = begin s k l
at_pair s k l (some i) = at_conn s k l i (get_elem? l.conns i)

unfoldable pub tally : Segment → Ledger → Ledger
unfolding pair_of find at_pair
tally s l = let k = pair_of s.src s.dst s.if_index in at_pair s k l (find k l.current)
