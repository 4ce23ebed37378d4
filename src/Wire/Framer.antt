-- ===== src/Wire/Framer.antt =====
-- wire/framer.go: the bytes of one stream split into frame bodies.
pub mod State
pub mod Length
pub mod Bundle
pub mod Boundary
pub mod Pump
pub mod Write
