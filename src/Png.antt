-- ===== src/Png.antt =====
-- internal/png: the repository's fork of Go's package image/png.
pub mod Word
pub mod Paeth
pub mod Filter
pub mod Format
pub mod Encoder
pub mod Canvas
pub mod Decoder
pub mod Chunks
pub mod Stages
pub mod Raster
pub mod Pass
pub mod Picture
pub mod Writer
pub mod RoundTrip
pub mod Interlace
pub mod FilterPaeth
pub mod Files
pub mod Encode
pub mod NoPanic
mod Tests
