-- ===== src/Image.antt =====
-- The parts of Go's package image that the program uses: image.Rect, Rectangle.Dx, Dy, Empty and
-- In, and image.Gray16. Coordinates come from 32-bit device fields, and are never negative.
use srvfb.Base.{ℕ, ◌-◌, Bool, ◌&&◌, ◌||◌, List, ltb, leb, if◌then◌else◌}

pub record Rectangle : Type 0 where
  pub min_x : ℕ
  pub min_y : ℕ
  pub max_x : ℕ
  pub max_y : ℕ

-- image.Rect swaps coordinates that are the wrong way round.
unfoldable pub rect : ℕ → ℕ → ℕ → ℕ → Rectangle
rect x0 y0 x1 y1 = record {
  min_x = if ltb x1 x0 then x1 else x0;
  min_y = if ltb y1 y0 then y1 else y0;
  max_x = if ltb x1 x0 then x0 else x1;
  max_y = if ltb y1 y0 then y0 else y1;
}

-- The minimum is at most the maximum in every rectangle that `rect` makes.
unfoldable pub dx : Rectangle → ℕ
dx r = r.max_x - r.min_x

unfoldable pub dy : Rectangle → ℕ
dy r = r.max_y - r.min_y

unfoldable pub is_empty : Rectangle → Bool
is_empty r = leb r.max_x r.min_x || leb r.max_y r.min_y

-- r.In(s)
unfoldable pub is_in : Rectangle → Rectangle → Bool
unfolding is_empty
is_in r s =
    is_empty r
    || (leb s.min_x r.min_x && leb r.max_x s.max_x && leb s.min_y r.min_y && leb r.max_y s.max_y)

pub record Gray16 : Type 0 where
  pub pix : List ℕ
  pub stride : ℕ
  pub rect : Rectangle

-- A value of the interface image.Image: a *image.Gray16, or one of another type.
pub data Picture : Type 0 where
  gray16 : Gray16 → Picture
  other : Picture
