-- ===== src/Conns.antt =====
-- conns.go: the connections of a recording.
pub mod Pair
pub mod Symmetric
pub mod Edge
pub mod Furthest
pub mod Tally
pub mod Status
pub mod Listed
mod Tests
