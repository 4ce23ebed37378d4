-- ===== src/Wire/Decoder.antt =====
-- wire/decoder.go and wire/stream.go: segments in, frames out, in the files below. Logging, the slab
-- that payloads are copied into, the pointer to the stream looked up last, which the table holds
-- too, and the iterators around a reader are left out.
pub mod State
pub mod Table
pub mod Lock
pub mod Reassembly
pub mod Feed
pub mod Decode
pub mod Early
mod Tests
