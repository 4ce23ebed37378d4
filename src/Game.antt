-- ===== src/Game.antt =====
-- The package game: what one frame of the game means.
pub mod Std
pub mod Reader
pub mod Events
pub mod Parse
mod Tests
