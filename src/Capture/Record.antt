-- ===== src/Capture/Record.antt =====
-- capture/record.go: the recorder, as the bytes that it writes.
pub mod RoundTrip
use a2kit.Common.{ℕ, List, ◌++◌, length}
use a2kit.Capture.Order.{u16_bytes, u32_bytes}
use a2kit.Capture.Packet.{Time}
use a2kit.Capture.Classic.{pcap_nano}

abbrev pub snap_len : ℕ
snap_len = 65535

-- newRecorder
unfoldable pub file_header : ℕ → List ℕ
file_header link_type =
    u32_bytes pcap_nano
    ++ u16_bytes 2
    ++ u16_bytes 4
    ++ (u32_bytes 0 ++ u32_bytes 0)
    ++ u32_bytes snap_len
    ++ u32_bytes link_type

-- write
unfoldable pub record_of : Time → List ℕ → ℕ → List ℕ
record_of t bytes orig =
    u32_bytes t.sec ++ u32_bytes t.ns ++ u32_bytes (length bytes) ++ u32_bytes orig ++ bytes
