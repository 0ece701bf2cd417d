-- ===== src/Png/Canvas.antt =====
-- The images of Go's package image that internal/png/reader.go, readImagePass, makes.
use srvfb.Base.{ℕ, ◌*◌, replicate}
use srvfb.Base.Bytes.{Bytes}

-- The types of package image that readImagePass makes.
pub data ImageType : Type 0 where
  gray_image gray16_image rgba_image rgba64_image nrgba_image nrgba64_image paletted_image :
      ImageType

-- The bytes of a pixel in Pix.
abbrev pub pixel_size : ImageType → ℕ
pixel_size gray_image = 1
pixel_size gray16_image = 2
pixel_size rgba_image = 4
pixel_size rgba64_image = 8
pixel_size nrgba_image = 4
pixel_size nrgba64_image = 8
pixel_size paletted_image = 1

-- An image with its lower bound at the origin and no gap between its lines. The palette is that of
-- d.palette, of whose array it has the first `palette_len` colors.
pub record Canvas : Type 0 where
  pub kind : ImageType
  pub width : ℕ
  pub height : ℕ
  pub pix : Bytes
  pub palette_len : ℕ

abbrev pub stride_of : Canvas → ℕ
stride_of im = im.width * pixel_size im.kind

-- image.NewGray and the others.
abbrev pub new_canvas : ImageType → ℕ → ℕ → ℕ → Canvas
new_canvas kind w h len = record {
  kind = kind;
  width = w;
  height = h;
  pix = replicate (w * pixel_size kind * h) 0;
  palette_len = len;
}
