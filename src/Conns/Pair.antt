-- ===== src/Conns/Pair.antt =====
-- conns.go: pair, the two ends of a connection, and header.
use a2kit.Common.{ℕ, Bool, ◌&&◌, ◌||◌, ltb, ◌==◌, if◌then◌else◌, length}
use a2kit.Wire.Frame.{AddrPort, same_addr, Segment}

-- a.Compare(b) > 0 of net/netip: the addresses by their length, then by their value, then the ports
unfoldable pub later : AddrPort → AddrPort → Bool
later a b =
    ltb b.bits a.bits
    || a.bits == b.bits && (ltb b.addr a.addr || a.addr == b.addr && ltb b.port a.port)

pub record Pair : Type 0 where
  pub lo : AddrPort
  pub hi : AddrPort
  pub if_index : ℕ

unfoldable pub pair_of : AddrPort → AddrPort → ℕ → Pair
unfolding later
pair_of a b if_index =
    if later a b
    then record { lo = b; hi = a; if_index = if_index }
    else record { lo = a; hi = b; if_index = if_index }

-- == on pairs
unfoldable pub same_pair : Pair → Pair → Bool
same_pair k l = same_addr k.lo l.lo && same_addr k.hi l.hi && k.if_index == l.if_index

pub record Header : Type 0 where
  pub src : AddrPort
  pub flags : ℕ
  pub seq : ℕ
  pub ack : ℕ
  pub n : ℕ

abbrev pub header_of : Segment → Header
header_of s = record {
  src = s.src;
  flags = s.flags;
  seq = s.seq;
  ack = s.ack;
  n = length s.payload;
}

-- == on headers
unfoldable pub same_header : Header → Header → Bool
same_header a b =
    same_addr a.src b.src && a.flags == b.flags && a.seq == b.seq && a.ack == b.ack && a.n == b.n
