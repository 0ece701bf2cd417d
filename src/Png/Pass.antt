-- ===== src/Png/Pass.antt =====
-- internal/png/reader.go, readImagePass: one pass of an image, read from the decompressed data.
use srvfb.Base.{
  ℕ, zero, suc, ◌+◌, ◌-◌, ◌*◌, ◌/◌, Bool, ◌||◌, Option, none, some, List, [], ◌∷◌, ◌++◌, ◌==◌,
  if◌then◌else◌, length, get_or, take, drop, replicate,
}
use srvfb.Base.Bytes.{Bytes, copy}
use srvfb.Base.Outcome.{Outcome, ok, err, panic, ◌>>=◌}
use srvfb.Png.Format.{
  Mode, cb_invalid, cb_g1, cb_g2, cb_g4, cb_g8, cb_ga8, cb_tc8, cb_p1, cb_p2, cb_p4, cb_p8, cb_tca8,
  cb_g16, cb_ga16, cb_tc16, cb_tca16, Error, format_error, eof, unexpected_eof, read_full,
}
use srvfb.Png.Canvas.{
  ImageType, gray_image, gray16_image, rgba_image, rgba64_image, nrgba_image, nrgba64_image,
  paletted_image, Canvas, stride_of, new_canvas,
}
use srvfb.Png.Filter.{FilterType, ft_none, ft_sub, ft_up, ft_average, ft_paeth}
use srvfb.Png.Filter.RoundTrip.{undo}
use srvfb.Png.Decoder.{Decoder}
use srvfb.Png.Raster.{Transparent, transparent_of, row_pixels, palette_after}

-- The two results of the first `switch d.cb`.
unfoldable pub image_type : Mode → Bool → ImageType
image_type cb_g1 t = if t then nrgba_image else gray_image
image_type cb_g2 t = if t then nrgba_image else gray_image
image_type cb_g4 t = if t then nrgba_image else gray_image
image_type cb_g8 t = if t then nrgba_image else gray_image
image_type cb_ga8 t = nrgba_image
image_type cb_tc8 t = if t then nrgba_image else rgba_image
image_type cb_p1 t = paletted_image
image_type cb_p2 t = paletted_image
image_type cb_p4 t = paletted_image
image_type cb_p8 t = paletted_image
image_type cb_tca8 t = nrgba_image
image_type cb_g16 t = if t then nrgba64_image else gray16_image
image_type cb_ga16 t = nrgba64_image
image_type cb_tc16 t = if t then nrgba64_image else rgba64_image
image_type cb_tca16 t = nrgba64_image
image_type cb_invalid t = gray_image

unfoldable pub bits_per_pixel : Mode → ℕ → ℕ
bits_per_pixel cb_g1 depth = depth
bits_per_pixel cb_g2 depth = depth
bits_per_pixel cb_g4 depth = depth
bits_per_pixel cb_g8 depth = depth
bits_per_pixel cb_ga8 depth = 16
bits_per_pixel cb_tc8 depth = 24
bits_per_pixel cb_p1 depth = depth
bits_per_pixel cb_p2 depth = depth
bits_per_pixel cb_p4 depth = depth
bits_per_pixel cb_p8 depth = depth
bits_per_pixel cb_tca8 depth = 32
bits_per_pixel cb_g16 depth = 16
bits_per_pixel cb_ga16 depth = 32
bits_per_pixel cb_tc16 depth = 48
bits_per_pixel cb_tca16 depth = 64
bits_per_pixel cb_invalid depth = 0

-- cr[0] of a row, as the cases of the switch over it.
unfoldable pub filter_type : ℕ → Option FilterType
filter_type n =
    if n == 0
    then some ft_none
    else if n == 1
    then some ft_sub
    else if n == 2
    then some ft_up
    else if n == 3
    then some ft_average
    else if n == 4
    then some ft_paeth
    else none

-- The end of the data is another error.
abbrev data_error : Error → Error
data_error eof = format_error
data_error unexpected_eof = format_error
data_error e = e

unfoldable pub not_enough : Outcome Error (Bytes × Bytes) → Outcome Error (Bytes × Bytes)
not_enough (ok r) = ok r
not_enough (err e) = err (data_error e)
not_enough panic = panic

-- The `switch cr[0]`: cdat with its filter undone; pdat is that of the row before.
unfoldable pub unfilter : ℕ → Bytes → Bytes → Outcome Error Bytes
unfilter bpp pdat cr = elim (filter_type (get_or cr 0 0)) [
  | none ↦ err format_error
  | some ft ↦ ok (undo ft bpp (drop 1 cr) pdat)
]

-- io.ReadFull(r, cr), and the filter.
unfoldable pub read_row : ℕ → ℕ → Bytes → Bytes → Outcome Error (Bytes × Bytes)
read_row bpp row_size pdat r = not_enough (read_full row_size r) >>= λ (cr, rest).
    unfilter bpp pdat cr >>= λ cdat. ok (cdat, rest)

-- The bytes of a row in Pix, at an offset.
abbrev pub put : Bytes → ℕ → Bytes → Bytes
put pix offset row = take offset pix ++ copy (drop offset pix) row

-- The loop over y, with n rows to go; the offset is y * Stride. `room` is the capacity of the palette.
unfoldable pub read_rows :
    Transparent → Mode → ℕ → ℕ → ℕ → ℕ → ℕ → Bytes → Bytes → Canvas → Outcome Error (Canvas × Bytes)
read_rows t cb room bpp row_size zero offset pdat r im = ok (im, r)
read_rows t cb room bpp row_size (suc n) offset pdat r im =
    read_row bpp row_size pdat r >>= λ (cdat, rest).
    let row = row_pixels t cb im.width cdat in
    palette_after cb room im.palette_len row >>= λ len.
    read_rows t cb room bpp row_size n (offset + stride_of im) cdat rest
      (record im { pix = put im.pix offset row; palette_len = len })

-- The fields of an interlaceScan.
pub record Scan : Type 0 where
  pub x_factor : ℕ
  pub y_factor : ℕ
  pub x_offset : ℕ
  pub y_offset : ℕ

abbrev scan_of : ℕ → ℕ → ℕ → ℕ → Scan
scan_of xf yf xo yo = record { x_factor = xf; y_factor = yf; x_offset = xo; y_offset = yo }

abbrev pub interlacing : List Scan
interlacing =
    scan_of 8 8 0 0
    ∷ scan_of 8 8 4 0
    ∷ scan_of 4 8 0 4
    ∷ scan_of 4 4 2 0
    ∷ scan_of 2 4 0 2
    ∷ scan_of 2 2 1 0
    ∷ scan_of 1 2 0 1
    ∷ []

-- (size - offset + factor - 1) / factor on ints; a size is positive and an offset less than a
-- factor, so that the sum is never negative.
unfoldable pub reduced : ℕ → ℕ → ℕ → ℕ
reduced size offset factor = (size + factor - 1 - offset) / factor

-- A pass of this size: nothing is read of an empty one, and it has no image.
unfoldable pub read_size : Decoder → ℕ → ℕ → Bytes → Outcome Error (Option Canvas × Bytes)
read_size d w h r =
    let bits = bits_per_pixel d.cb d.depth in
    let row_size = 1 + (bits * w + 7) / 8 in
    let t = transparent_of d.use_transparent d.transparent in
    read_rows t d.cb (length d.palette) ((bits + 7) / 8) row_size h 0 (replicate (row_size - 1) 0) r
      (new_canvas (image_type d.cb d.use_transparent) w h d.palette_len)
    >>= λ (im, rest). ok (some im, rest)

-- readImagePass(nil, 0, true)
abbrev pub allocate : Decoder → Canvas
allocate d = new_canvas (image_type d.cb d.use_transparent) d.width d.height d.palette_len

-- readImagePass(r, pass, false), for a pass of an interlaced image.
unfoldable pub read_pass : Decoder → Scan → Bytes → Outcome Error (Option Canvas × Bytes)
read_pass d p r =
    let w = reduced d.width p.x_offset p.x_factor in
    let h = reduced d.height p.y_offset p.y_factor in
    if w == 0 || h == 0 then ok (none, r) else read_size d w h r
