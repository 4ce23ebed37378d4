-- ===== src/Wire.antt =====
-- The package wire: from TCP segments to frames.
pub mod Opcode
pub mod Frame
pub mod Varint
pub mod Scan
pub mod Envelope
pub mod Framer
pub mod Decoder
mod Tests
