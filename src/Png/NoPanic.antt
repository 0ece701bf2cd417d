-- ===== src/Png/NoPanic.antt =====
-- internal/png: panics, and the ends of the decoder's loops. The panics of reader.go in the model
-- are those over a palette: a slice of it beyond its array, and the assertion on a color's type. Those
-- of writer.go are the slices of a picture's Pix.
pub mod Rows
pub mod Image
pub mod Loops
pub mod File
pub mod Encode
mod Tests
