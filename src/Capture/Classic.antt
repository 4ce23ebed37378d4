-- ===== src/Capture/Classic.antt =====
-- capture/pcap.go: classic pcap files.
use a2kit.Common.{
  ℕ, ◌+◌, ◌*◌, ◌%◌, ◌^◌, List, Option, none, some, ltb, ◌==◌, if◌then◌else◌, length, take, drop,
}
use a2kit.Capture.Order.{Order, little, big, u32}
use a2kit.Capture.Packet.{Packet, unix, truncated, packet_length, Read, got, eof, failed}

abbrev pub pcap_micro : ℕ
pcap_micro = 0xA1B2C3D4

abbrev pub pcap_nano : ℕ
pcap_nano = 0xA1B23C4D

abbrev pub max_snap : ℕ
max_snap = 262144

-- `rest` is what the reader r has left.
pub record Classic : Type 0 where
  pub rest : List ℕ
  pub order : Order
  pub tick : ℕ
  pub link_type : ℕ

-- The ticks that a magic stands for, in nanoseconds
abbrev tick_of : ℕ → Option ℕ
tick_of magic =
    if magic == pcap_micro then some 1000 else if magic == pcap_nano then some 1 else none

-- The loop over the orders, whose later one would win
magic_order : List ℕ → Option (Order × ℕ)
magic_order h = elim (tick_of (u32 big h)) [
  | some tick ↦ some (big, tick)
  | none ↦ elim (tick_of (u32 little h)) [ none ↦ none | some tick ↦ some (little, tick) ]
]

-- newClassic, `none` for ErrNotCapture
unfoldable pub new_classic : List ℕ → Option Classic
unfolding magic_order
new_classic p = if ltb (length p) 24 then none else elim (magic_order p) [
  | none ↦ none
  | some (order, tick) ↦ some (record {
    rest = drop 24 p;
    order = order;
    tick = tick;
    link_type = u32 order (drop 20 p) % 2 ^ 26;
  })
]

-- next, on a header of 16 bytes
body_of : Classic → Read Packet Classic
body_of c =
    let u = u32 c.order in
    let n = u (drop 8 c.rest) in
    if ltb max_snap n
    then failed (packet_length n)
    else if ltb (length c.rest) (16 + n)
    then failed truncated
    else got
        (record {
          time = unix (u c.rest) (u (drop 4 c.rest) * c.tick);
          link_type = c.link_type;
          if_index = 0;
          orig = u (drop 12 c.rest);
          bytes = take n (drop 16 c.rest);
        })
        (record c { rest = drop (16 + n) c.rest })

unfoldable pub next : Classic → Read Packet Classic
unfolding body_of
next c =
    if length c.rest == 0
    then eof
    else if ltb (length c.rest) 16
    then failed truncated
    else body_of c
