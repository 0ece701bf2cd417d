-- ===== src/Png/RoundTrip/Tests.antt =====
-- internal/png: the round trips at concrete pictures.
use srvfb.Base.{ℕ, ◌%◌, ◌≤◌, ◌≡◌, refl, true, false, none, some, [], ◌∷◌, ◌++◌, arith}
use srvfb.Base.Bytes.{Bytes}
use srvfb.Base.Outcome.{ok}
use srvfb.Image.{Rectangle, dx, dy}
use srvfb.Png.Format.{Mode, cb_g16, cb_p2, ds_seen_ihdr}
use srvfb.Png.Filter.{Rows}
use srvfb.Png.Decoder.{rgba, Decoder}
use srvfb.Png.Canvas.{gray16_image, paletted_image}
use srvfb.Png.Pass.{read_size}
use srvfb.Png.Picture.{Picture, gray16, other}
use srvfb.Png.Writer.{write_image}
use srvfb.Png.RoundTrip.Draw.{flatten}
use srvfb.Png.RoundTrip.Gray.{IsGray16, picture_lines, read_size-write_image}
use srvfb.Png.RoundTrip.Indexed.{index_lines, cb_p2-IsPacked, read_size-write_indexed}

-- Two lines of two pixels, in lines of five bytes.
abbrev bounds : Rectangle
bounds = record { min_x = 1; min_y = 5; max_x = 3; max_y = 7 }

abbrev pix : Bytes
pix = 1 ∷ 200 ∷ 7 ∷ 255 ∷ 99 ∷ 0 ∷ 190 ∷ 9 ∷ 250 ∷ 99 ∷ []

abbrev black : ℕ → ℕ → ℕ × ℕ × ℕ × ℕ
black x y = (0, 0, 0, 0xffff)

abbrev frame : Picture
frame = record {
  bounds = bounds;
  layout = gray16 pix 5;
  gray_at = λ x y. 0;
  gray16_at = λ x y. 0;
  rgba_at = black;
  nrgba_at = black;
  nrgba64_at = black;
  index_at = λ x y. 0;
}

frame-IsGray16 : IsGray16 frame pix 5
unfolding dx dy
frame-IsGray16 = record {
  layout_eq = refl;
  columns = omega arith;
  wide = omega arith;
  inside = omega arith;
  bytes = (
    omega arith,
    (
      omega arith,
      (
        omega arith,
        (
          omega arith,
          (
            omega arith,
            (omega arith, (omega arith, (omega arith, (omega arith, (omega arith, tt))))),
          ),
        ),
      ),
    ),
  );
}

two_lines : dy bounds ≤ 2
unfolding dy
two_lines = omega arith

-- Buffers of an earlier picture.
abbrev old_rows : Rows
old_rows = record {
  none_row = 9 ∷ 9 ∷ 9 ∷ 9 ∷ 9 ∷ 9 ∷ [];
  sub_row = 9 ∷ [];
  up_row = [];
  average_row = [];
  paeth_row = 9 ∷ [];
}

abbrev reading : Mode → ℕ → Decoder
reading cb depth = record {
  input = [];
  img = none;
  checked = [];
  width = 2;
  height = 2;
  depth = depth;
  cb = cb;
  stage = ds_seen_ihdr;
  interlace = 0;
  idat_length = 0;
  palette = rgba 0 0 0 255 ∷ rgba 1 1 1 255 ∷ rgba 2 2 2 255 ∷ rgba 3 3 3 255 ∷ [];
  palette_len = 4;
  use_transparent = false;
  transparent = 0 ∷ 0 ∷ 0 ∷ 0 ∷ 0 ∷ 0 ∷ [];
}

read_size-write_image_example :
    (stream : Bytes) × (write_image frame cb_g16 true old_rows 2 ≡ ok stream)
    × (read_size (reading cb_g16 16) (dx bounds) (dy bounds) (stream ++ (7 ∷ []))
        ≡ ok (
          some (record {
            kind = gray16_image;
            width = dx bounds;
            height = dy bounds;
            pix = flatten (picture_lines frame pix 5 frame-IsGray16);
            palette_len = 4;
          }),
          7 ∷ [],
        ))
read_size-write_image_example =
    read_size-write_image frame pix 5 frame-IsGray16 true old_rows 2 (reading cb_g16 16) (7 ∷ [])
      two_lines refl refl

-- The pixel in column x has the color x % 4.
abbrev stripes : Picture
stripes = record frame { layout = other; index_at = λ x y. x % 4 }

read_size-write_indexed_example :
    (stream : Bytes) × (write_image stripes cb_p2 true old_rows 2 ≡ ok stream)
    × (read_size (reading cb_p2 2) (dx bounds) (dy bounds) (stream ++ (7 ∷ []))
        ≡ ok (
          some (record {
            kind = paletted_image;
            width = dx bounds;
            height = dy bounds;
            pix = flatten (index_lines stripes 5 (dy bounds));
            palette_len = 4;
          }),
          7 ∷ [],
        ))
read_size-write_indexed_example =
    read_size-write_indexed stripes cb_p2 2 4 4 64 cb_p2-IsPacked (λ x y. omega arith) true old_rows
      2 (reading cb_p2 2) (7 ∷ []) two_lines refl refl (λ x y. omega arith)
