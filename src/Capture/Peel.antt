-- ===== src/Capture/Peel.antt =====
-- capture/peel.go: from a packet down to its TCP segment.
pub mod Built
use a2kit.Common.{
  ℕ, ◌+◌, ◌-◌, ◌*◌, ◌/◌, ◌%◌, ◌^◌, min, not, ◌||◌, List, [], ◌∷◌, Option, none, some, ltb, ◌==◌,
  if◌then◌else◌, length, take, drop, byte_at, u32_le,
}
use a2kit.Wire.Frame.{AddrPort, Segment}
use a2kit.Capture.Order.{u16_be, u32_be, u64_be}

abbrev pub link_null : ℕ
link_null = 0

abbrev pub link_ethernet : ℕ
link_ethernet = 1

abbrev pub link_loop : ℕ
link_loop = 108

abbrev pub link_linux_sll : ℕ
link_linux_sll = 113

abbrev pub link_linux_sll2 : ℕ
link_linux_sll2 = 276

abbrev pub link_raw : ℕ
link_raw = 101

abbrev pub proto_tcp : ℕ
proto_tcp = 6

-- What network returns: the bytes from the IP header on, and the version
abbrev pub Network : Type 0
Network = List ℕ × ℕ

abbrev pub not_ip : Network
not_ip = ([], 0)

unfoldable pub ethertype : ℕ → ℕ
ethertype t = if t == 0x0800 then 4 else if t == 0x86DD then 6 else 0

unfoldable pub family : ℕ → ℕ
family af = if af == 2 then 4 else if af == 24 || af == 28 || af == 30 then 6 else 0

-- bits.ReverseBytes32
abbrev pub reverse_bytes : ℕ → ℕ
reverse_bytes v =
    2 ^ 24 * (v % 256) + 2 ^ 16 * (v / 2 ^ 8 % 256) + 2 ^ 8 * (v / 2 ^ 16 % 256) + v / 2 ^ 24 % 256

-- The loop past VLAN tags, on the type and the bytes from off on
unfoldable pub past_tags : ℕ → List ℕ → Network
unfolding ethertype
past_tags typ (a ∷ b ∷ c ∷ d ∷ p) =
    let next = past_tags (256 * c + d) p in
    if typ == 0x8100 || typ == 0x88A8 then next else (a ∷ b ∷ c ∷ d ∷ p, ethertype typ)
past_tags typ p = (p, ethertype typ)

-- network on raw IP, and on any link type that is not named
unfoldable pub raw : List ℕ → Network
raw [] = not_ip
raw (b ∷ p) = let v = b / 2 ^ 4 in if v == 4 || v == 6 then (b ∷ p, v) else not_ip

-- An address family, whatever its byte order
abbrev family_of : ℕ → ℕ
family_of af = if ltb 0xFFFF af then reverse_bytes af else af

unfoldable pub network : ℕ → List ℕ → Network
unfolding past_tags raw ethertype family
network link_type p =
    if link_type == link_ethernet
    then (if ltb (length p) 14 then not_ip else past_tags (u16_be (drop 12 p)) (drop 14 p))
    else if link_type == link_null || link_type == link_loop
    then (if ltb (length p) 4 then not_ip else (drop 4 p, family (family_of (u32_le p))))
    else if link_type == link_linux_sll
    then (if ltb (length p) 16 then not_ip else (drop 16 p, ethertype (u16_be (drop 14 p))))
    else if link_type == link_linux_sll2
    then (if ltb (length p) 20 then not_ip else (drop 20 p, ethertype (u16_be p)))
    else raw p

pub record Addr : Type 0 where
  pub bits : ℕ
  pub addr : ℕ

-- The TCP header and what follows it, with the two addresses
abbrev pub Datagram : Type 0
Datagram = List ℕ × Addr × Addr

abbrev addr4 : List ℕ → Addr
addr4 b = record { bits = 32; addr = u32_be b }

abbrev addr16 : List ℕ → Addr
addr16 b = record { bits = 128; addr = 2 ^ 64 * u64_be b + u64_be (drop 8 b) }

-- ipv4, past its checks on the version, the protocol and fragments
unfragmented : List ℕ → Option Datagram
unfragmented p =
    let n = byte_at p 0 % 16 * 4 in
    let total = min (u16_be (drop 2 p)) (length p) in
    if ltb n 20 || ltb total (n + 20)
    then none
    else some (take (total - n) (drop n p), addr4 (drop 12 p), addr4 (drop 16 p))

unfoldable pub ipv4 : List ℕ → Option Datagram
unfolding unfragmented
ipv4 p =
    if ltb (length p) 20 || not (byte_at p 0 / 2 ^ 4 == 4) || not (byte_at p 9 == proto_tcp)
    then none
    else if not (u16_be (drop 6 p) % 2 ^ 14 == 0)
    then none
    else unfragmented p

unfoldable pub ipv6 : List ℕ → Option Datagram
ipv6 p =
    let total = min (40 + u16_be (drop 4 p)) (length p) in
    if ltb (length p) 40 || not (byte_at p 6 == proto_tcp)
    then none
    else if ltb total 60
    then none
    else some (take (total - 40) (drop 40 p), addr16 (drop 8 p), addr16 (drop 24 p))

abbrev at_port : Addr → ℕ → AddrPort
at_port a port = record { bits = a.bits; addr = a.addr; port = port }

-- segment, on a TCP header. The time and the adapter are the reader's to set.
tcp_segment : Datagram → Option Segment
tcp_segment (tcp, src, dst) =
    let n = byte_at tcp 12 / 2 ^ 4 * 4 in
    if ltb n 20 || ltb (length tcp) n
    then none
    else some (record {
      time = 0;
      src = at_port src (u16_be tcp);
      dst = at_port dst (u16_be (drop 2 tcp));
      flags = byte_at tcp 13;
      if_index = 0;
      seq = u32_be (drop 4 tcp);
      ack = u32_be (drop 8 tcp);
      payload = drop n tcp;
    })

segment_in : Option Datagram → Option Segment
unfolding tcp_segment
segment_in none = none
segment_in (some tcp) = tcp_segment tcp

unfoldable pub segment : Network → Option Segment
unfolding segment_in ipv4 ipv6
segment (ip, version) =
    if version == 4
    then segment_in (ipv4 ip)
    else if version == 6
    then segment_in (ipv6 ip)
    else none

or_raw : ℕ → List ℕ → Option Segment → Option Segment
unfolding segment network
or_raw link_type p none = if link_type == link_ethernet then segment (network link_raw p) else none
or_raw link_type p (some s) = some s

unfoldable pub peel : ℕ → List ℕ → Option Segment
unfolding or_raw segment network
peel link_type p = or_raw link_type p (segment (network link_type p))
