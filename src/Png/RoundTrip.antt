-- ===== src/Png/RoundTrip.antt =====
-- internal/png: pictures that the encoder writes are read back by the decoder.
pub mod Row
pub mod Rows
pub mod Draw
pub mod Whole
pub mod Stream
pub mod File
pub mod Gray
pub mod Packing
pub mod Blocks
pub mod Encoded
pub mod Indexed
mod Tests
pub mod Samples
mod FileTests
