-- ===== src/Capture/Pcapng.antt =====
-- capture/pcapng.go: pcapng files, a run of blocks.
pub mod Blocks
pub mod Total
pub mod Interface
use a2kit.Common.{
  ℕ, zero, suc, ◌+◌, ◌-◌, ◌*◌, ◌%◌, min, Bool, true, false, not, ◌&&◌, ◌||◌, List, [], ◌∷◌, ◌++◌,
  Option, none, some, ltb, leb, ◌==◌, if◌then◌else◌, length, take, drop, u32_le,
}
use a2kit.Capture.Order.{Order, little, big, u16, u32, u32_be}
use a2kit.Capture.Packet.{
  Time, unix, Packet, Error, truncated, no_section, short_block, no_iface, byte_order, block_length,
  lengths_disagree, version, packet_end, Read, got, eof, failed, Result, ok, err,
}
use Interface.{Iface, iface, time}

abbrev pub ng_section : ℕ
ng_section = 0x0A0D0D0A

abbrev pub ng_interface : ℕ
ng_interface = 1

abbrev pub ng_obsolete : ℕ
ng_obsolete = 2

abbrev pub ng_simple : ℕ
ng_simple = 3

abbrev pub ng_enhanced : ℕ
ng_enhanced = 6

abbrev pub ng_byte_order : ℕ
ng_byte_order = 0x1A2B3C4D

abbrev pub max_block : ℕ
max_block = 16777216

-- `rest` is what the reader r has left.
pub record Pcapng : Type 0 where
  pub rest : List ℕ
  pub order : Option Order
  pub ifaces : List Iface

pub record Block : Type 0 where
  pub typ : ℕ
  pub body : List ℕ

-- The order that a section's magic gives
magic_order : List ℕ → Option Order
magic_order magic =
    if u32_le magic == ng_byte_order
    then some little
    else if u32_be magic == ng_byte_order
    then some big
    else none

-- The reader with the order and the interfaces that a section header sets
start_section : Pcapng → Result Pcapng
unfolding magic_order
start_section n =
    if ltb (length n.rest) 12 then err truncated else elim (magic_order (drop 8 n.rest)) [
      | none ↦ err byte_order
      | some o ↦ ok (record n { order = some o; ifaces = [] })
    ]

-- readBlock, from the block's length on, with whether it is a section header
sized : Bool → Pcapng → Order → ℕ → Read Block Pcapng
sized section n o size =
    let body = take (size - 12) (drop 8 n.rest) in
    if ltb size 12 || not (size % 4 == 0) || ltb max_block size
    then failed (block_length size)
    else if ltb (length n.rest) size
    then failed truncated
    else if not (u32 o (drop (size - 4) n.rest) == size)
    then failed lengths_disagree
    else if section && (ltb (length body) 16 || not (u16 o (drop 4 body) == 1))
    then failed version
    else got (record { typ = u32 o n.rest; body = body }) (record n { rest = drop size n.rest })

-- readBlock, once a section header has set the order
ordered : Bool → Result Pcapng → Read Block Pcapng
unfolding sized
ordered section (err e) = failed e
ordered section (ok n) = elim n.order [
  | none ↦ failed no_section
  | some o ↦ sized section n o (u32 o (drop 4 n.rest))
]

unfoldable pub read_block : Pcapng → Read Block Pcapng
unfolding ordered start_section
read_block n =
    let section = u32_le n.rest == ng_section in
    if length n.rest == 0
    then eof
    else if ltb (length n.rest) 8
    then failed truncated
    else ordered section (if section then start_section n else ok n)

-- n.ifaces[id]
unfoldable pub iface_at : ℕ → List Iface → Option Iface
iface_at id [] = none
iface_at zero (i ∷ ifaces) = some i
iface_at (suc id) (i ∷ ifaces) = iface_at id ifaces

packet_on : Order → List ℕ → ℕ → Option Iface → Result Packet
unfolding time
packet_on o b id none = err no_iface
packet_on o b id (some i) =
    let size = u32 o (drop 12 b) in
    if ltb (length b - 20) size
    then err packet_end
    else ok (record {
      time = time i (u32 o (drop 4 b)) (u32 o (drop 8 b));
      link_type = i.link_type;
      if_index = id;
      orig = u32 o (drop 16 b);
      bytes = take size (drop 20 b);
    })

unfoldable pub packet_block : Order → List Iface → List ℕ → Bool → Result Packet
unfolding packet_on iface_at
packet_block o ifaces b obsolete =
    let id = if obsolete then u16 o b else u32 o b in
    if ltb (length b) 20 then err short_block else packet_on o b id (iface_at id ifaces)

-- simpleBlock, on the first interface
simple_on : Order → List ℕ → Option Iface → Result Packet
simple_on o b none = err no_iface
simple_on o b (some i) =
    let orig = u32 o b in
    let size = min orig (length b - 4) in
    ok (record {
      time = unix 0 0;
      link_type = i.link_type;
      if_index = 0;
      orig = orig;
      bytes = take (if ltb 0 i.snap_len then min size i.snap_len else size) (drop 4 b);
    })

unfoldable pub simple_block : Order → List Iface → List ℕ → Result Packet
unfolding simple_on iface_at
simple_block o ifaces b =
    if ltb (length b) 4 then err short_block else simple_on o b (iface_at 0 ifaces)

-- What next's switch does with a block: an answer, or the next round
pub data Turn : Type 0 where
  answer : Read Packet Pcapng → Turn
  go_on : Pcapng → Turn

answer_of : Pcapng → Result Packet → Turn
answer_of n (ok p) = answer (got p n)
answer_of n (err e) = answer (failed e)

described : Pcapng → Result Iface → Turn
described n (ok i) = go_on (record n { ifaces = n.ifaces ++ (i ∷ []) })
described n (err e) = answer (failed e)

on_block : Order → Block → Pcapng → Turn
unfolding described answer_of iface packet_block simple_block
on_block o b n =
    if b.typ == ng_interface
    then described n (iface o b.body)
    else if b.typ == ng_enhanced
    then answer_of n (packet_block o n.ifaces b.body false)
    else if b.typ == ng_obsolete
    then answer_of n (packet_block o n.ifaces b.body true)
    else if b.typ == ng_simple
    then answer_of n (simple_block o n.ifaces b.body)
    else go_on n

-- A round of next. A block is never read without an order.
turn : Read Block Pcapng → Turn
unfolding on_block
turn eof = answer eof
turn (failed e) = answer (failed e)
turn (got b n) = elim n.order [ none ↦ answer (failed no_section) | some o ↦ on_block o b n ]

-- next's loop; `none` means that the fuel ran out.
next_loop : ℕ → Turn → Option (Read Packet Pcapng)
unfolding turn read_block
next_loop fuel (answer r) = some r
next_loop zero (go_on n) = none
next_loop (suc fuel) (go_on n) = next_loop fuel (turn (read_block n))

-- next: a round that goes on takes 12 bytes at least.
unfoldable pub next : Pcapng → Option (Read Packet Pcapng)
unfolding next_loop
next n = next_loop (suc (length n.rest)) (go_on n)
