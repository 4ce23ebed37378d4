-- ===== src/Capture/Peel/Built.antt =====
-- capture/peel.go: a packet built from its parts.
use a2kit.Common.{
  ℕ, ◌+◌, ◌-◌, ◌*◌, ◌/◌, ◌%◌, ◌^◌, ◌≤◌, ◌<◌, ◌≡◌, refl, Bool, true, false, ◌∙◌, ap, List, [], ◌∷◌,
  ◌++◌, Option, none, some, length, take, drop, arith, min, length-append, take-length_append,
  drop-length_append, drop-past, ltb, ◌||◌, if◌then◌else◌,
}
use a2kit.Wire.Frame.{Segment}
use a2kit.Capture.Order.{u32_bytes_be, u16_be, u32_be}
use a2kit.Capture.Peel.{
  Addr, Datagram, link_ethernet, past_tags, network, unfragmented, ipv4, tcp_segment, segment_in,
  segment, or_raw, peel, ethertype,
}

-- What a TCP segment over IPv4 is built from; `options` are the TCP header's.
pub record Parts : Type 0 where
  pub src : ℕ
  pub dst : ℕ
  pub src_port : ℕ
  pub dst_port : ℕ
  pub seq : ℕ
  pub ack : ℕ
  pub flags : ℕ
  pub options : List ℕ
  pub payload : List ℕ

abbrev pub two : ℕ → List ℕ
two v = v / 256 % 256 ∷ v % 256 ∷ []

-- A TCP header, up to its options
abbrev pub tcp_head : Parts → List ℕ
tcp_head p =
    two p.src_port
    ++ (two p.dst_port
        ++ (u32_bytes_be p.seq
            ++ (u32_bytes_be p.ack
                ++ ((5 + length p.options / 4) * 16 ∷ p.flags ∷ 0 ∷ 0 ∷ 0 ∷ 0 ∷ 0 ∷ 0 ∷ []))))

abbrev pub tcp_of : Parts → List ℕ
tcp_of p = tcp_head p ++ (p.options ++ p.payload)

-- An IPv4 header without options, and the segment
abbrev pub ip_with : ℕ → ℕ → List ℕ → List ℕ
ip_with src dst tcp =
    0x45
    ∷ 0
    ∷ (two (20 + length tcp)
        ++ (0 ∷ 0 ∷ 0x40 ∷ 0 ∷ 64 ∷ 6 ∷ 0 ∷ 0 ∷ (u32_bytes_be src ++ (u32_bytes_be dst ++ tcp))))

-- A VLAN tag: whether it is a service tag, of 802.1ad, and its value
abbrev pub Tag : Type 0
Tag = Bool × ℕ

-- The VLAN tags, the type, and what they lead to
abbrev pub tagged : List Tag → List ℕ → List ℕ
tagged [] ip = 0x08 ∷ 0x00 ∷ ip
tagged ((false, v) ∷ vs) ip = 0x81 ∷ 0x00 ∷ (two v ++ tagged vs ip)
tagged ((true, v) ∷ vs) ip = 0x88 ∷ 0xA8 ∷ (two v ++ tagged vs ip)

pub record AreParts (p : Parts) : Type 0 where
  pub src : p.src < 2 ^ 32
  pub dst : p.dst < 2 ^ 32
  pub src_port : p.src_port < 2 ^ 16
  pub dst_port : p.dst_port < 2 ^ 16
  pub seq : p.seq < 2 ^ 32
  pub ack : p.ack < 2 ^ 32
  pub options : (length p.options % 4 ≡ 0) × (length p.options ≤ 40)
  pub size : 40 + length p.options + length p.payload < 2 ^ 16

abbrev pub segment_of : Parts → Segment
segment_of p = record {
  time = 0;
  src = record { bits = 32; addr = p.src; port = p.src_port };
  dst = record { bits = 32; addr = p.dst; port = p.dst_port };
  flags = p.flags;
  if_index = 0;
  seq = p.seq;
  ack = p.ack;
  payload = p.payload;
}

abbrev addr4 : ℕ → Addr
addr4 a = record { bits = 32; addr = a }

length-tcp_of : (p : Parts) → length (tcp_of p) ≡ 20 + length p.options + length p.payload
length-tcp_of p = omega (arith, length-append p.options p.payload)

offset : (m : ℕ) → m % 4 ≡ 0 → (5 + m / 4) * 16 / 2 ^ 4 * 4 ≡ 20 + m
offset m h = omega arith

past_head : (p : Parts) (n : ℕ) → n ≡ 20 + length p.options → drop n (tcp_of p) ≡ p.payload
past_head p n e =
    drop-past (tcp_head p) (p.options ++ p.payload) n (omega (arith, e))
    ∙ ap (λ (k : ℕ). drop k (p.options ++ p.payload)) (omega (arith, e))
    ∙ drop-length_append p.options p.payload

-- tcp_segment, with its header length known
segment_at : (p : Parts) (n : ℕ) (bytes : List ℕ) → Option Segment
segment_at p n bytes =
    if ltb n 20 || ltb (length (tcp_of p)) n
    then none
    else some (record {
      time = 0;
      src = record { bits = 32; addr = p.src; port = u16_be (tcp_of p) };
      dst = record { bits = 32; addr = p.dst; port = u16_be (drop 2 (tcp_of p)) };
      flags = p.flags;
      if_index = 0;
      seq = u32_be (drop 4 (tcp_of p));
      ack = u32_be (drop 8 (tcp_of p));
      payload = bytes;
    })

long_enough :
    (p : Parts) (n : ℕ) → n ≡ 20 + length p.options → ltb n 20 || ltb (length (tcp_of p)) n ≡ false
long_enough p n e = ground (arith, e, length-append p.options p.payload)

u16-two : (v : ℕ) (q : List ℕ) → v < 2 ^ 16 → u16_be (two v ++ q) ≡ v
u16-two v q h = omega arith

u32-word : (v : ℕ) (q : List ℕ) → v < 2 ^ 32 → u32_be (u32_bytes_be v ++ q) ≡ v
u32-word v q h = omega arith

fields :
    (p : Parts) (n : ℕ)
    → AreParts p
    → n ≡ 20 + length p.options
    → segment_at p n p.payload ≡ some (segment_of p)
unfolding segment_at
fields p n h e =
    rw
      (
        long_enough p n e,
        u16-two p.src_port [] h.src_port,
        u16-two p.dst_port [] h.dst_port,
        u32-word p.seq [] h.seq,
        u32-word p.ack [] h.ack,
      )
      refl

tcp_segment-tcp_of :
    (p : Parts)
    → AreParts p
    → tcp_segment (tcp_of p, addr4 p.src, addr4 p.dst) ≡ some (segment_of p)
unfolding tcp_segment segment_at
tcp_segment-tcp_of p h =
    let n = (5 + length p.options / 4) * 16 / 2 ^ 4 * 4 in
    let e = offset (length p.options) h.options.0 in
    ap (λ (bytes : List ℕ). segment_at p n bytes) (past_head p n e) ∙ fields p n h e

past_tags-ip : (q : List ℕ) → past_tags 0x0800 q ≡ (q, 4)
unfolding past_tags ethertype
past_tags-ip [] = refl
past_tags-ip (a ∷ []) = refl
past_tags-ip (a ∷ b ∷ []) = refl
past_tags-ip (a ∷ b ∷ c ∷ []) = refl
past_tags-ip (a ∷ b ∷ c ∷ d ∷ q) = refl

-- ipv4 on such a header, with its total length known
datagram_at : (src dst total : ℕ) (q : List ℕ) → Option Datagram
datagram_at src dst total q =
    if ltb total 40
    then none
    else some
        (take (total - 20) q, addr4 (u32_be (u32_bytes_be src)), addr4 (u32_be (u32_bytes_be dst)))

datagram_at-whole :
    (src dst total : ℕ) (tcp pad : List ℕ)
    → src < 2 ^ 32
    → dst < 2 ^ 32
    → 20 ≤ length tcp
    → total ≡ 20 + length tcp
    → datagram_at src dst total (tcp ++ pad) ≡ some (tcp, addr4 src, addr4 dst)
unfolding datagram_at
datagram_at-whole src dst total tcp pad a b l e =
    rw (at_least total (omega arith), u32-word src [] a, u32-word dst [] b)
      (ap (λ (q : List ℕ). some (q, addr4 src, addr4 dst))
        (ap (λ (k : ℕ). take k (tcp ++ pad)) {y = length tcp} (omega (arith, e))
          ∙ take-length_append tcp pad))
  where
    at_least : (t : ℕ) → 40 ≤ t → ltb t 40 ≡ false
    at_least t h = ground arith

ipv4-ip_with :
    (src dst : ℕ) (tcp pad : List ℕ)
    → src < 2 ^ 32
    → dst < 2 ^ 32
    → 20 ≤ length tcp
    → 20 + length tcp < 2 ^ 16
    → ipv4 (ip_with src dst tcp ++ pad) ≡ some (tcp, addr4 src, addr4 dst)
unfolding ipv4 unfragmented datagram_at
ipv4-ip_with src dst tcp pad a b l h =
    let whole = ip_with src dst tcp ++ pad in
    let total = min (u16_be (two (20 + length tcp))) (length whole) in
    rw (not_short (length whole) (omega arith))
      (datagram_at-whole src dst total tcp pad a b l (omega (arith, length-append tcp pad)))
  where
    not_short : (n : ℕ) → 20 ≤ n → ltb n 20 ≡ false
    not_short n h = ground arith

past_tags-tagged :
    (vs : List Tag) (q : List ℕ) → past_tags (u16_be (tagged vs q)) (drop 2 (tagged vs q)) ≡ (q, 4)
unfolding past_tags
past_tags-tagged [] q = past_tags-ip q
past_tags-tagged ((false, v) ∷ []) q = past_tags-ip q
past_tags-tagged ((false, v) ∷ (false, w) ∷ vs) q = past_tags-tagged ((false, w) ∷ vs) q
past_tags-tagged ((false, v) ∷ (true, w) ∷ vs) q = past_tags-tagged ((true, w) ∷ vs) q
past_tags-tagged ((true, v) ∷ []) q = past_tags-ip q
past_tags-tagged ((true, v) ∷ (false, w) ∷ vs) q = past_tags-tagged ((false, w) ∷ vs) q
past_tags-tagged ((true, v) ∷ (true, w) ∷ vs) q = past_tags-tagged ((true, w) ∷ vs) q

-- An Ethernet packet: twelve bytes of addresses, VLAN tags, the IP packet, and padding
abbrev pub ethernet : List ℕ → List Tag → List ℕ → List ℕ
ethernet macs vs ip = macs ++ tagged vs ip

network-ethernet :
    (macs : List ℕ) (vs : List Tag) (ip : List ℕ)
    → length macs ≡ 12
    → network link_ethernet (ethernet macs vs ip) ≡ (ip, 4)
unfolding network
network-ethernet macs vs ip h =
    let t = tagged vs ip in
    let to_type : drop 12 (macs ++ t) ≡ t =
      drop-past macs t 12 (omega arith) ∙ ap (λ (k : ℕ). drop k t) {y = 0} (omega arith) in
    let past : drop 14 (macs ++ t) ≡ drop 2 t =
      drop-past macs t 14 (omega arith) ∙ ap (λ (k : ℕ). drop k t) {y = 2} (omega arith) in
    rw
      (
        not_short (length (macs ++ t)) (omega (arith, length-append macs t, two_more vs)),
        to_type,
        past,
      )
      (past_tags-tagged vs ip)
  where
    not_short : (n : ℕ) → 14 ≤ n → ltb n 14 ≡ false
    not_short n l = ground arith

    two_more : (ws : List Tag) → 2 ≤ length (tagged ws ip)
    two_more [] = omega arith
    two_more ((false, w) ∷ ws) = omega arith
    two_more ((true, w) ∷ ws) = omega arith

-- A TCP segment over IPv4 and Ethernet comes out as it was put in: for every payload, options,
-- addresses, ports, numbers and flags, with any VLAN tags, of 802.1Q or 802.1ad, before the IP header and any padding
-- behind the packet, peel gives the segment with those fields and that payload, without the padding.
-- The options are padded to 32 bits and at most 40 bytes, and the packet is shorter than 64 KiB.
pub peel-ethernet :
    (macs : List ℕ) (vs : List Tag) (pad : List ℕ) (p : Parts)
    → length macs ≡ 12
    → AreParts p
    → peel link_ethernet (ethernet macs vs (ip_with p.src p.dst (tcp_of p) ++ pad))
      ≡ some (segment_of p)
unfolding peel segment segment_in or_raw
peel-ethernet macs vs pad p e h =
    let l = length-tcp_of p in
    rw
      (
        network-ethernet macs vs (ip_with p.src p.dst (tcp_of p) ++ pad) e,
        ipv4-ip_with p.src p.dst (tcp_of p) pad h.src h.dst (omega (arith, l))
            (omega (arith, l, h.size)),
        tcp_segment-tcp_of p h,
      )
      refl
