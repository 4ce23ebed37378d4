-- ===== src/Trace.antt =====
-- trace.go: a recording as a Chrome trace.
pub mod Entry
pub mod Step
pub mod Add
pub mod Finish
mod Tests
