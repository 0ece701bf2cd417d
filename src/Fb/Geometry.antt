-- ===== src/Fb/Geometry.antt =====
-- internal/fb/fb.go: which pictures (*Device).Image returns, and what of the screen they show.
use srvfb.Base.{ℕ, ◌+◌, ◌*◌, ◌%◌, ◌^◌, ◌≤◌, ◌<◌, ◌≡◌, arith, length}
use native.Mathlib.Nat.{mul-le-mul_left, mul-le-mul_right}
use srvfb.Base.Outcome.{ok}
use srvfb.Image.{rect, dx, dy, is_in, Gray16, gray16}
use srvfb.Fb.{done, Device, image, visual_of}
use srvfb.Fb.Types.{VarScreeninfo}

-- A picture is all of the mapped memory, with the device's line length; its rectangle is made of
-- the offset and the resolution, and lies in the virtual screen unless it is empty.
pub record IsShown (d : Device) (v : VarScreeninfo) (g : Gray16) : Type 0 where
  pub pix_eq : g.pix ≡ d.mmap
  pub stride_eq : g.stride ≡ d.finfo.line_length
  pub rect_eq : g.rect ≡ visual_of v
  pub depth : v.bits_per_pixel ≡ 16
  pub area : v.xres_virtual * v.yres_virtual * 2 % 2 ^ 64 ≡ length d.mmap
  pub inside :
      0 < dx g.rect
      → 0 < dy g.rect
      → (g.rect.max_x ≤ v.xres_virtual) × (g.rect.max_y ≤ v.yres_virtual)

pub lines_fit : (y l w h : ℕ) → y ≤ h → l ≤ 2 * w → w * h < 2 ^ 63 → y * l ≤ w * h * 2 % 2 ^ 64
lines_fit y l w h p q m =
    let r : y * l ≤ h * l = mul-le-mul_right l p in
    let t : h * l ≤ h * (2 * w) = mul-le-mul_left h q in
    let u : h * (2 * w) ≡ w * h * 2 = grind arith in omega (arith, r, t, u, m)

module _ (d : Device) (v : VarScreeninfo) (g : Gray16)
    (shown : image d (done v) ≡ ok (gray16 g)) where
  pub image-IsShown : IsShown d v g
  unfolding image rect dx dy is_in
  image-IsShown = ground arith

  -- If the lines are packed, two bytes for each pixel of the virtual screen, and the virtual screen
  -- has less than 2 ^ 63 pixels, every line of a picture that is not empty lies within its bytes.
  pub image_lines_in_memory :
      d.finfo.line_length ≡ 2 * v.xres_virtual
      → v.xres_virtual * v.yres_virtual < 2 ^ 63
      → 0 < dx g.rect
      → 0 < dy g.rect
      → (2 * g.rect.max_x ≤ g.stride) × (g.rect.max_y * g.stride ≤ length g.pix)
  image_lines_in_memory packed small w h =
      let s = image-IsShown in
      let (in_x, in_y) = s.inside w h in
      (
        omega (arith, s.stride_eq),
        rw (s.stride_eq, packed, s.pix_eq, ← s.area) (lines_fit _ _ _ _ in_y (omega arith) small),
      )

  -- If the device is panned down by `yoffset` lines, at most its own height, the picture has
  -- `yres - yoffset` lines and not `yres`: none at all when it is panned by a whole screen.
  pub panned-dy : v.yoffset ≤ v.yres → dy g.rect + v.yoffset ≡ v.yres
  unfolding rect dy
  panned-dy h = rw (image-IsShown.rect_eq) (ground arith)
