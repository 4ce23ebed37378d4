-- ===== src/Capture.antt =====
-- The package capture: pcap and pcapng files, and the TCP segments in their packets. The bytes of a
-- file that are not read yet stand for its buffered reader, whose only failure is their end.
pub mod Order
pub mod Packet
pub mod Peel
pub mod Classic
pub mod Record
pub mod Pcapng
pub mod Reader
mod Tests
