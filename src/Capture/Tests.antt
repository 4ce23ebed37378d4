-- ===== src/Capture/Tests.antt =====
-- Runs of the capture readers on small inputs.
use a2kit.Common.{ℕ, true, false, ◌≡◌, ◌++◌, refl, List, [], ◌∷◌, none, some, arith, take, ◌-◌, ◌^◌}
use a2kit.Wire.Frame.{Segment}
use a2kit.Capture.Order.{big}
use a2kit.Capture.Packet.{Packet, Read, got, eof, failed, truncated}
use a2kit.Capture.Classic.{Classic, new_classic}
use a2kit.Capture.Record.{file_header, record_of}
use a2kit.Capture.Record.RoundTrip.{Reads, records, Fits, recording-Reads, recording_cut-Reads}
use a2kit.Capture.Peel.{peel, link_ethernet}
use a2kit.Capture.Peel.Built.{Parts, AreParts, ethernet, ip_with, tcp_of, segment_of, peel-ethernet}
use a2kit.Capture.Pcapng.{Pcapng, Block, read_block}
use a2kit.Capture.Pcapng.Blocks.{IsBlock, encode, at_block, read_block-encode}
use a2kit.Capture.Reader.{Reader, pcapng, read_segment}
use a2kit.Capture.Reader.Total.{read_segment-returns}

abbrev packet : ℕ → List ℕ → Packet
packet ns bytes = record {
  time = record { sec = 1700000000; ns = ns };
  link_type = 1;
  if_index = 0;
  orig = 60;
  bytes = bytes;
}

packet-Fits : Fits (packet 5 (1 ∷ 2 ∷ 3 ∷ []))
packet-Fits = record {
  sec = omega arith;
  ns = omega arith;
  orig = omega arith;
  size = omega arith;
  adapter = refl;
}

recording-Reads_example :
    (c : Classic) × (new_classic (file_header 1 ++ records (packet 5 (1 ∷ 2 ∷ 3 ∷ []) ∷ []))
      ≡ some c)
    × Reads c (packet 5 (1 ∷ 2 ∷ 3 ∷ []) ∷ []) eof
recording-Reads_example =
    recording-Reads 1 (packet 5 (1 ∷ 2 ∷ 3 ∷ []) ∷ []) (omega arith) ((packet-Fits, refl), tt)

recording_cut-Reads_example :
    (c : Classic) × (new_classic (
        file_header 1
        ++ (records (packet 5 (1 ∷ 2 ∷ 3 ∷ []) ∷ [])
            ++ take 18 (record_of (packet 5 (1 ∷ 2 ∷ 3 ∷ [])).time (1 ∷ 2 ∷ 3 ∷ []) 60)))
      ≡ some c)
    × Reads c (packet 5 (1 ∷ 2 ∷ 3 ∷ []) ∷ []) (failed truncated)
unfolding record_of
recording_cut-Reads_example =
    recording_cut-Reads 1 (packet 5 (1 ∷ 2 ∷ 3 ∷ []) ∷ []) (packet 5 (1 ∷ 2 ∷ 3 ∷ [])) 18
      (omega arith) ((packet-Fits, refl), tt) (packet-Fits, refl) (omega arith) (omega arith)

abbrev block : Block
block = record { typ = 6; body = 1 ∷ 2 ∷ 3 ∷ 4 ∷ [] }

block-IsBlock : IsBlock block
block-IsBlock = record {
  typ = omega arith;
  plain = λ e. omega (arith, e);
  padded = refl;
  size = omega arith;
}

abbrev section : Pcapng
section = record { rest = []; order = some big; ifaces = [] }

read_block-encode_example :
    read_block (at_block big section (encode big block ++ (7 ∷ [])))
    ≡ got block (at_block big section (7 ∷ []))
read_block-encode_example = read_block-encode block block-IsBlock (7 ∷ []) section big

-- A section header and a block that is cut
abbrev cut_file : Reader
cut_file = record {
  c = pcapng (record {
    rest = 0x0A ∷ 0x0D ∷ 0x0D ∷ 0x0A ∷ 28 ∷ 0 ∷ 0 ∷ 0 ∷ 0x4D ∷ [];
    order = none;
    ifaces = [];
  });
  cut = 0;
}

read_segment-returns_example : (s : Read Segment Reader) × (read_segment cut_file ≡ some s)
read_segment-returns_example = read_segment-returns cut_file

abbrev parts : Parts
parts = record {
  src = 0x0A000002;
  dst = 0x0A000001;
  src_port = 13328;
  dst_port = 50000;
  seq = 2 ^ 32 - 1;
  ack = 7;
  flags = 24;
  options = 2 ∷ 4 ∷ 5 ∷ 180 ∷ [];
  payload = 3 ∷ 1 ∷ 2 ∷ [];
}

parts-AreParts : AreParts parts
parts-AreParts = record {
  src = omega arith;
  dst = omega arith;
  src_port = omega arith;
  dst_port = omega arith;
  seq = omega arith;
  ack = omega arith;
  options = (refl, omega arith);
  size = omega arith;
}

abbrev macs : List ℕ
macs = 1 ∷ 2 ∷ 3 ∷ 4 ∷ 5 ∷ 6 ∷ 7 ∷ 8 ∷ 9 ∷ 10 ∷ 11 ∷ 12 ∷ []

peel-ethernet_example :
    peel link_ethernet (
      ethernet macs
        ((true, 9) ∷ (false, 5) ∷ [])
        (ip_with parts.src parts.dst (tcp_of parts) ++ (0 ∷ 0 ∷ [])))
    ≡ some (segment_of parts)
peel-ethernet_example =
    peel-ethernet macs ((true, 9) ∷ (false, 5) ∷ []) (0 ∷ 0 ∷ []) parts refl parts-AreParts
