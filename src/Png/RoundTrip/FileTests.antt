-- ===== src/Png/RoundTrip/FileTests.antt =====
-- internal/png: a frame of two lines as a whole file.
use srvfb.Base.{◌≤◌, ◌≡◌, refl, none, some, [], ◌∷◌, arith}
use srvfb.Base.Bytes.{Bytes}
use srvfb.Base.Outcome.{ok, slice}
use srvfb.Image.{dx, dy}
use srvfb.Png.Encoder.{Encoder}
use srvfb.Png.Chunks.Header.{IsSized}
use srvfb.Png.Filter.{row_of}
use srvfb.Png.Picture.{Picture, convert, gray16, gray16_line}
use srvfb.Png.Writer.{written_bits, choose, sized, write_rows, write_image}
use srvfb.Png.Files.{gray16_colors, decode_file, decode_config}
use srvfb.Png.Encode.{no_compression, level_to_zlib, encode_image}
use srvfb.Png.Filter.RoundTrip.{AllBytes}
use srvfb.Png.RoundTrip.Gray.{IsGray16}
use srvfb.Png.RoundTrip.Samples.{blocks, inflate, blocks-IsZlib, crc, crc-lt}
use srvfb.Png.RoundTrip.Encoded.{no_rows, source, decoded, needed_writes, decode_file-encode_image}

abbrev pix : Bytes
pix = 1 ∷ 200 ∷ 7 ∷ 255 ∷ 99 ∷ 0 ∷ 190 ∷ 9 ∷ 250 ∷ 99 ∷ []

-- Two lines of two pixels, in lines of five bytes.
abbrev frame : Picture
frame = record {
  bounds = record { min_x = 0; min_y = 0; max_x = 2; max_y = 2 };
  layout = gray16 pix 5;
  gray_at = λ x y. 0;
  gray16_at = λ x y. 0;
  rgba_at = λ x y. (0, 0, 0, 0);
  nrgba_at = λ x y. (0, 0, 0, 0);
  nrgba64_at = λ x y. (0, 0, 0, 0);
  index_at = λ x y. 0;
}

frame-IsGray16 : IsGray16 frame pix 5
unfolding dx dy
frame-IsGray16 = record {
  layout_eq = refl;
  columns = omega arith;
  wide = omega arith;
  inside = omega arith;
  bytes = small;
}
  where
    small : AllBytes pix
    small = (
      omega arith,
      (
        omega arith,
        (
          omega arith,
          (
            omega arith,
            (
              omega arith,
              (omega arith, (omega arith, (omega arith, (omega arith, (omega arith, tt))))),
            ),
          ),
        ),
      ),
    )

frame-IsSized : IsSized frame.bounds
unfolding dx dy
frame-IsSized = record {
  width = (omega arith, omega arith);
  height = (omega arith, omega arith);
  area = omega arith;
}

enough : needed_writes frame blocks no_compression no_rows ≤ 40
unfolding dx dy write_image write_rows convert gray16_line slice choose sized written_bits
    level_to_zlib row_of
enough = omega arith

decode_file-encode_image_example :
    (e : Encoder) × (encode_image crc blocks (source frame none) no_compression no_rows (0, 0) 40
      ≡ ok e)
    × (e.error ≡ none)
    × (decode_file crc inflate e.out ≡ ok (some (decoded frame pix 5 frame-IsGray16 0)))
    × (decode_config crc inflate e.out ≡ ok (gray16_colors, dx frame.bounds, dy frame.bounds))
decode_file-encode_image_example =
    decode_file-encode_image crc crc-lt frame pix 5 frame-IsGray16 frame-IsSized blocks inflate none
      no_compression no_rows (0, 0) 40 blocks-IsZlib enough
