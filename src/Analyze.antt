-- ===== src/Analyze.antt =====
-- analyze.go: a recording read for what its message types are.
pub mod Windows
pub mod Packets
pub mod Between
pub mod Bursts
pub mod Ambient
pub mod Detail
pub mod Analysis
mod Tests
