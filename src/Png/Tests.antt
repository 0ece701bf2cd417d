-- ===== src/Png/Tests.antt =====
-- internal/png: the theorems at concrete rows.
use srvfb.Base.{
  ℕ, ◌%◌, ◌^◌, ◌≤◌, ◌<◌, ◌≡◌, refl, false, Option, none, List, [], ◌∷◌, ◌++◌, arith, length,
}
use srvfb.Base.Bytes.{Bytes}
use srvfb.Base.Outcome.{Outcome, ok}
use srvfb.Image.{Rectangle, dx, dy}
use srvfb.Png.Canvas.{Canvas}
use srvfb.Png.Format.{cb_invalid, cb_p1, cb_p8, cb_g16, ds_start, ds_seen_ihdr, Error}
use srvfb.Png.Encoder.{write_chunk, write_ihdr}
use srvfb.Png.Decoder.{Decoder}
use srvfb.Png.Decoder.Chunk.{parse_chunk}
use srvfb.Png.Chunks.{new, parse_chunk-write_chunk}
use srvfb.Png.Chunks.Header.{IsSized, header_read, parse_chunk-write_ihdr}
use srvfb.Png.Stages.{Holds}
use srvfb.Png.Stages.Order.{Next, parse_chunk-Next}
use srvfb.Png.Raster.{palette_after}
use srvfb.Png.Raster.Covered.{IsCovered, palette_after-AllBelow}
use srvfb.Png.Word.{abs}
use srvfb.Png.Paeth.{paeth, paeth_predictor, paeth-paeth_predictor}
use srvfb.Png.Filter.{FilterType, ft_paeth, Rows, row_of, filter}
use srvfb.Png.Filter.Scan.{score}
use srvfb.Png.Filter.Choice.{filtered, filter_least}
use srvfb.Png.Filter.RoundTrip.{undo, undo-filtered}

-- A palette of two colors, and a row with the index 200.
palette_after-AllBelow_example :
    (len' : ℕ) × (palette_after cb_p8 256 2 (1 ∷ 200 ∷ []) ≡ ok len')
    × IsCovered cb_p8 2 (1 ∷ 200 ∷ []) len'
palette_after-AllBelow_example =
    palette_after-AllBelow cb_p8 256 2 (1 ∷ 200 ∷ []) refl (omega arith)
      (omega arith, (omega arith, tt))

paeth_run : paeth 10 200 180 ≡ 10
unfolding paeth abs
paeth_run = refl

paeth-paeth_predictor_example : paeth 10 200 180 ≡ paeth_predictor 10 200 180
paeth-paeth_predictor_example =
    paeth-paeth_predictor 10 200 180 (omega arith) (omega arith) (omega arith)

-- A row of two 16-bit pixels, with old contents in the buffers.
abbrev row : List ℕ
row = 1 ∷ 200 ∷ 7 ∷ 255 ∷ []

abbrev prior : List ℕ
prior = 0 ∷ 190 ∷ 9 ∷ 250 ∷ []

abbrev stale : List ℕ
stale = 5 ∷ 5 ∷ 5 ∷ 5 ∷ []

abbrev buffers : Rows
buffers = record {
  none_row = row;
  sub_row = stale;
  up_row = stale;
  average_row = stale;
  paeth_row = stale;
}

filter_least_example :
    let (ft, cr') = filter buffers prior 2 in
    (row_of ft cr' ≡ filtered ft 2 row prior)
    × ((g : FilterType) → score (filtered ft 2 row prior) ≤ score (filtered g 2 row prior))
filter_least_example = filter_least buffers prior 2 (omega arith) (omega arith) (omega arith)

undo-filtered_example : undo ft_paeth 2 (filtered ft_paeth 2 row prior) prior ≡ row
undo-filtered_example = undo-filtered {bpp = 2} {cs = row} {ps = prior} (omega arith) ft_paeth

-- A checksum, and a decode that takes no bytes.
abbrev crc : Bytes → ℕ
crc b = length b % 2 ^ 32

crc_bounded : (b : Bytes) → crc b < 2 ^ 32
crc_bounded b = omega arith

abbrev take_none : Decoder → Outcome Error (Option Canvas × Bytes × Bytes)
take_none d = ok (none, d.input, d.checked)

abbrev blank : Decoder
blank = record {
  input = [];
  img = none;
  checked = [];
  width = 0;
  height = 0;
  depth = 0;
  cb = cb_invalid;
  stage = ds_start;
  interlace = 0;
  idat_length = 0;
  palette = [];
  palette_len = 0;
  use_transparent = false;
  transparent = 0 ∷ 0 ∷ 0 ∷ 0 ∷ 0 ∷ 0 ∷ [];
}

abbrev text : Bytes
text = b't' ∷ b'E' ∷ b'X' ∷ b't' ∷ []

parse_chunk-write_chunk_example :
    parse_chunk crc take_none
      (record blank { input = (write_chunk crc (1 ∷ 2 ∷ []) text (new 3)).out ++ (9 ∷ []) })
    ≡ ok (record blank { input = 9 ∷ []; checked = text ++ (1 ∷ 2 ∷ []) })
parse_chunk-write_chunk_example =
    parse_chunk-write_chunk crc take_none crc_bounded (1 ∷ 2 ∷ []) text (9 ∷ []) 0 blank
      (omega arith) refl refl

-- A picture of two lines of three pixels.
abbrev screen : Rectangle
screen = record { min_x = 0; min_y = 0; max_x = 3; max_y = 2 }

screen-IsSized : IsSized screen
unfolding dx dy
screen-IsSized = record {
  width = (omega arith, omega arith);
  height = (omega arith, omega arith);
  area = omega arith;
}

parse_chunk-write_ihdr_example :
    parse_chunk crc take_none
      (record blank { input = (write_ihdr crc screen cb_g16 (new 3)).out ++ (9 ∷ []) })
    ≡ ok (header_read crc take_none crc_bounded screen cb_g16 (9 ∷ []) blank)
parse_chunk-write_ihdr_example =
    parse_chunk-write_ihdr crc take_none crc_bounded screen cb_g16 (9 ∷ []) 0 blank screen-IsSized
      refl refl

-- A palette of one color, for a decoder that has read the header of a paletted picture.
abbrev paletted : Decoder
paletted = record blank {
  input = 0 ∷ 0 ∷ 0 ∷ 3 ∷ b'P' ∷ b'L' ∷ b'T' ∷ b'E' ∷ 1 ∷ 2 ∷ 3 ∷ 0 ∷ 0 ∷ 0 ∷ 7 ∷ [];
  cb = cb_p1;
  depth = 1;
  stage = ds_seen_ihdr;
}

parse_chunk-Next_example : Holds (Next crc paletted) (parse_chunk crc take_none paletted)
parse_chunk-Next_example =
    parse_chunk-Next crc take_none (λ d h. tt) paletted
      (λ l. absurd (omega arith), λ e. absurd (cc e))
