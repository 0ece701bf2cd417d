-- ===== src/Handler/Tests.antt =====
-- srvfb.go, (*handler).readImage: a frame of a small screen.
use srvfb.Base.{ℕ, ◌≡◌, refl, some, arith, length}
use srvfb.Base.Outcome.{ok}
use srvfb.Image.{rect, dx, dy, is_in, Gray16}
use srvfb.Fb.{visual_of, image}
use srvfb.Fb.Samples.{panned, memory, shot}
use srvfb.Handler.{load, swap_bytes, read_image, new_gray16}
use srvfb.Handler.Frames.{le_pixel, be_pixel, read_image-pixels}

abbrev frame : Gray16
frame = record { pix = swap_bytes (memory 1); stride = 4; rect = visual_of (panned 0) }

read_image-shot : read_image (shot 1) new_gray16 ≡ ok frame
unfolding read_image image rect dx dy is_in load
read_image-shot = refl

read_image-pixels_example :
    ((i : ℕ) → be_pixel (swap_bytes (memory 1)) i ≡ le_pixel (memory 1) i)
    × (length (swap_bytes (memory 1)) ≡ 16)
    × ◌≡◌ {A = ℕ} 4 4
    × (visual_of (panned 0) ≡ visual_of (panned 0))
read_image-pixels_example =
    read_image-pixels (shot 1) (panned 0) new_gray16 frame refl (omega arith) read_image-shot

second_pixel : be_pixel (swap_bytes (memory 1)) 1 ≡ some 0x0403
unfolding swap_bytes
second_pixel = refl
