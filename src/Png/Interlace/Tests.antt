-- ===== src/Png/Interlace/Tests.antt =====
-- internal/png/reader.go, interlacing: the passes at a pixel, and an image of three by two pixels.
use srvfb.Base.{
  ℕ, ◌+◌, ◌*◌, ◌/◌, ◌<◌, ◌≡◌, refl, ◌↔◌, Option, none, some, List, [], ◌∷◌, arith, get_or,
}
use srvfb.Base.Bytes.{Bytes}
use srvfb.Base.Outcome.{ok}
use srvfb.Png.Format.{cb_g8, read_full}
use srvfb.Png.Canvas.{Canvas, gray_image}
use srvfb.Png.Decoder.{Decoder}
use srvfb.Png.Raster.{row_pixels, gray_row, transparent_of, palette_after}
use srvfb.Png.Filter.RoundTrip.{undo}
use srvfb.Png.Pass.{
  reduced, image_type, bits_per_pixel, interlacing, read_pass, read_size, read_rows, read_row,
  unfilter, filter_type, not_enough,
}
use srvfb.Png.Files.{new_decoder}
use srvfb.Png.Interlace.{read_interlaced}
use srvfb.Png.Interlace.Cells.{cell}
use srvfb.Png.Interlace.Into.{kind, size}
use srvfb.Png.Interlace.Shapes.{HasShape}
use srvfb.Png.Interlace.Pixels.{AreRead, read_interlaced-pixels}
use srvfb.Png.Interlace.Passes.{Places, pass_scan, pass_of, IsIn, passes_partition}

passes_partition_example :
    IsIn (pass_of 6 4) 6 4 7 5
    × (Places (pass_scan 3) 1 1 6 4
        ↔ ((3 ≡ pass_of 6 4) × (1 ≡ 6 / (pass_scan 3).x_factor) × (1 ≡ 4 / (pass_scan 3).y_factor)))
passes_partition_example = passes_partition 7 5 6 4 3 1 1 (omega arith) (omega arith) (omega arith)

abbrev three_by_two : Decoder
three_by_two = record (new_decoder []) {
  width = 3;
  height = 2;
  depth = 8;
  cb = cb_g8;
  interlace = 1;
}

abbrev data_bytes : Bytes
data_bytes = 0 ∷ 10 ∷ 0 ∷ 20 ∷ 0 ∷ 30 ∷ 0 ∷ 40 ∷ 50 ∷ 60 ∷ []

abbrev gray_of : ℕ → Bytes → Canvas
gray_of w pix = record { kind = gray_image; width = w; height = 1; pix = pix; palette_len = 0 }

abbrev images : List (Option Canvas)
images =
    some (gray_of 1 (10 ∷ []))
    ∷ none
    ∷ none
    ∷ some (gray_of 1 (20 ∷ []))
    ∷ none
    ∷ some (gray_of 1 (30 ∷ []))
    ∷ some (gray_of 3 (40 ∷ 50 ∷ 60 ∷ []))
    ∷ []

images-AreRead : AreRead three_by_two interlacing data_bytes images []
unfolding read_pass reduced read_size read_rows read_row unfilter filter_type not_enough read_full
    row_pixels undo image_type bits_per_pixel transparent_of palette_after gray_row
images-AreRead = (_, refl, (_, refl, (_, refl, (_, refl, (_, refl, (_, refl, (_, refl, refl)))))))

one_byte : 0 < size three_by_two
unfolding image_type
one_byte = omega arith

read_interlaced-pixels_example :
    let p = pass_scan (pass_of 2 1) in
    let w = reduced 3 p.x_offset p.x_factor in
    (img : Canvas) × (im : Canvas) × (read_interlaced three_by_two data_bytes ≡ ok (some img, []))
    × HasShape (kind three_by_two) 3 2 img
    × (get_or images (pass_of 2 1) none ≡ some im)
    × (cell (size three_by_two) img.pix (1 * 3 + 2) 0
        ≡ cell (size three_by_two) im.pix (1 / p.y_factor * w + 2 / p.x_factor) 0)
read_interlaced-pixels_example =
    read_interlaced-pixels three_by_two data_bytes [] images 2 1 0 images-AreRead (omega arith)
      (omega arith) one_byte
