-- ===== src/Capture/Reader.antt =====
-- capture/capture.go: the reader over either format. `none` means that a pcapng file's loop ran out
-- of fuel.
pub mod Total
use a2kit.Common.{
  ℕ, zero, suc, ◌+◌, List, [], Option, none, some, ltb, ◌==◌, if◌then◌else◌, length, u32_le,
}
use a2kit.Wire.Frame.{Segment}
use a2kit.Capture.Packet.{
  Packet, since_least, Error, not_capture, Read, got, eof, failed, Result, ok, err,
}
use a2kit.Capture.Peel.{peel}
use a2kit.Capture.Classic.{Classic, new_classic}
use a2kit.Capture.Classic.{next as next_classic}
use a2kit.Capture.Pcapng.{Pcapng, ng_section}
use a2kit.Capture.Pcapng.{next as next_pcapng}

-- container
pub data Container : Type 0 where
  classic : Classic → Container
  pcapng : Pcapng → Container

pub record Reader : Type 0 where
  pub c : Container
  pub cut : ℕ

of_classic : Option Classic → Result Container
of_classic none = err not_capture
of_classic (some c) = ok (classic c)

unfoldable pub new_container : List ℕ → Result Container
unfolding of_classic new_classic
new_container p =
    if ltb (length p) 4
    then err not_capture
    else if u32_le p == ng_section
    then ok (pcapng (record { rest = p; order = none; ifaces = [] }))
    else of_classic (new_classic p)

-- A format's answer, over the formats
with_container : {S : Type 0} → (S → Container) → Read Packet S → Read Packet Container
with_container f (got p s) = got p (f s)
with_container f eof = eof
with_container f (failed e) = failed e

of_pcapng : Option (Read Packet Pcapng) → Option (Read Packet Container)
unfolding with_container
of_pcapng none = none
of_pcapng (some r) = some (with_container pcapng r)

unfoldable pub next : Container → Option (Read Packet Container)
unfolding with_container next_classic of_pcapng next_pcapng
next (classic c) = some (with_container classic (next_classic c))
next (pcapng n) = of_pcapng (next_pcapng n)

abbrev pub rest_of : Container → List ℕ
rest_of (classic c) = c.rest
rest_of (pcapng n) = n.rest

-- The reader that counts a segment cut short
cut_by : Packet → Reader → Reader
cut_by p r = if ltb (length p.bytes) p.orig then record r { cut = r.cut + 1 } else r

stamped : Packet → Segment → Segment
stamped p s = record s { time = since_least p.time; if_index = p.if_index }

-- What ReadSegment's loop makes of a packet: a segment, or the next round
on_packet : (Reader → Option (Read Segment Reader)) → Packet → Reader → Option (Read Segment Reader)
unfolding peel cut_by stamped
on_packet again p r = elim (peel p.link_type p.bytes) [
  | none ↦ again r
  | some s ↦ some (got (stamped p s) (cut_by p r))
]

round :
    (Reader → Option (Read Segment Reader))
    → ℕ
    → Option (Read Packet Container)
    → Option (Read Segment Reader)
unfolding on_packet
round again cut none = none
round again cut (some eof) = some eof
round again cut (some (failed e)) = some (failed e)
round again cut (some (got p c)) = on_packet again p (record { c = c; cut = cut })

-- ReadSegment's loop; `none` means that the fuel ran out.
read_loop : ℕ → Reader → Option (Read Segment Reader)
unfolding round next
read_loop zero r = none
read_loop (suc fuel) r = round (λ s. read_loop fuel s) r.cut (next r.c)

-- ReadSegment: a round that goes on takes 12 bytes at least.
unfoldable pub read_segment : Reader → Option (Read Segment Reader)
unfolding read_loop
read_segment r = read_loop (suc (length (rest_of r.c))) r
