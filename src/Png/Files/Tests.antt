-- ===== src/Png/Files/Tests.antt =====
-- Whole files with one pixel, and runs of the loops over them.
use srvfb.Base.{ℕ, ◌≡◌, refl, some, [], ◌∷◌, ◌++◌}
use srvfb.Base.Bytes.{Bytes}
use srvfb.Base.Outcome.{ok, err}
use srvfb.Png.Canvas.{gray_image}
use srvfb.Png.Format.{read_full, unexpected_eof, format_error}
use srvfb.Png.Decoder.{Decoder, read_data, verify_checksum, parse_iend}
use srvfb.Png.Decoder.Header.{parse_ihdr, take_ihdr, mode_of}
use srvfb.Png.Decoder.Chunk.{parse_idat, parse_chunk, take_chunk}
use srvfb.Png.Pass.{
  read_size, read_rows, read_row, not_enough, bits_per_pixel, unfilter, filter_type, image_type,
}
use srvfb.Png.Raster.{palette_after, row_pixels, gray_row, transparent_of}
use srvfb.Png.Filter.RoundTrip.{undo}
use srvfb.Png.Interlace.{read_image}
use srvfb.Png.Files.{
  Inflated, more, done, png_header, new_decoder, check_header, decode, read, find_data, next_idat,
  some_data, gather, decode_loop, config_loop, decode_file, decode_config, color_model, gray_colors,
}

-- A checksum and a compression for the tests: zero, and two bytes as they are.
abbrev crc : Bytes → ℕ
crc b = 0

abbrev inflate : Bytes → Inflated
inflate [] = more
inflate (x ∷ []) = more
inflate (x ∷ y ∷ bs) = done (x ∷ y ∷ [])

abbrev ihdr_chunk : Bytes
ihdr_chunk =
    0 ∷ 0 ∷ 0 ∷ 13 ∷ b'I' ∷ b'H' ∷ b'D' ∷ b'R' ∷ 0 ∷ 0 ∷ 0 ∷ 1 ∷ 0 ∷ 0 ∷ 0 ∷ 1 ∷ 8 ∷ 0 ∷ 0 ∷ 0 ∷ 0
    ∷ 0 ∷ 0 ∷ 0 ∷ 0 ∷ []

-- The two bytes stand in two chunks, after an empty one.
abbrev idat_chunks : Bytes
idat_chunks =
    0 ∷ 0 ∷ 0 ∷ 0 ∷ b'I' ∷ b'D' ∷ b'A' ∷ b'T' ∷ 0 ∷ 0 ∷ 0 ∷ 0 ∷ 0 ∷ 0 ∷ 0 ∷ 1 ∷ b'I' ∷ b'D' ∷ b'A'
    ∷ b'T' ∷ 0 ∷ 0 ∷ 0 ∷ 0 ∷ 0 ∷ 0 ∷ 0 ∷ 0 ∷ 1 ∷ b'I' ∷ b'D' ∷ b'A' ∷ b'T' ∷ 77 ∷ 0 ∷ 0 ∷ 0 ∷ 0 ∷ []

abbrev iend_chunk : Bytes
iend_chunk = 0 ∷ 0 ∷ 0 ∷ 0 ∷ b'I' ∷ b'E' ∷ b'N' ∷ b'D' ∷ 0 ∷ 0 ∷ 0 ∷ 0 ∷ []

abbrev chunks : Bytes
chunks = ihdr_chunk ++ (idat_chunks ++ iend_chunk)

abbrev beginning : Decoder
beginning = new_decoder chunks

one_pixel :
    decode_file crc inflate (png_header ++ chunks)
    ≡ ok
        (some (record { kind = gray_image; width = 1; height = 1; pix = 77 ∷ []; palette_len = 0 }))
unfolding decode_file decode_loop check_header read_full parse_chunk take_chunk parse_ihdr read_data
    take_ihdr mode_of verify_checksum parse_idat parse_iend decode gather read find_data next_idat
    some_data read_image read_size read_rows read_row not_enough bits_per_pixel unfilter filter_type
    palette_after image_type row_pixels gray_row undo transparent_of
one_pixel = refl

its_size : decode_config crc inflate (png_header ++ chunks) ≡ ok (gray_colors, 1, 1)
unfolding color_model decode_config config_loop check_header read_full parse_chunk take_chunk
    parse_ihdr read_data take_ihdr mode_of verify_checksum
its_size = refl

cut_off : decode_file crc inflate (png_header ++ ihdr_chunk) ≡ err unexpected_eof
unfolding decode_file decode_loop check_header read_full parse_chunk take_chunk parse_ihdr read_data
    take_ihdr mode_of verify_checksum
cut_off = refl

no_header : decode_file crc inflate (0 ∷ png_header) ≡ err format_error
unfolding decode_file check_header read_full
no_header = refl
