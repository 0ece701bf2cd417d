-- ===== src/Fb/Tests.antt =====
-- internal/fb/fb.go: the theorems at concrete screens and kernels.
use srvfb.Base.{ℕ, ◌+◌, ◌*◌, ◌≤◌, ◌<◌, ◌≡◌, refl, ◌↔◌, List, [], ◌∷◌, arith}
use srvfb.Base.Outcome.{ok, err}
use srvfb.Image.{rect, dx, dy, Gray16, gray16, is_in}
use srvfb.Fb.{
  Kernel, Reply, done, errno, opening, reading_fix, mapping, closing, image, visual_of, open_device,
  close_device, mmap_failed,
}
use srvfb.Fb.Samples.{fixed, panned, memory, screen}
use srvfb.Fb.Geometry.{image_lines_in_memory, panned-dy}
use srvfb.Fb.Resources.{Released, count_closing, open_device-Released, close_device-opened}

abbrev shown : ℕ → Gray16
shown y = record { pix = memory 1; stride = 4; rect = visual_of (panned y) }

image-screen : image (screen 1) (done (panned 0)) ≡ ok (gray16 (shown 0))
unfolding image rect dx dy is_in
image-screen = refl

image-panned : image (screen 1) (done (panned 2)) ≡ ok (gray16 (shown 2))
unfolding image rect dx dy is_in
image-panned = refl

shown_size : (0 < dx (visual_of (panned 0))) × (0 < dy (visual_of (panned 0)))
unfolding rect dx dy
shown_size = omega arith

image_lines_in_memory_example :
    (2 * (visual_of (panned 0)).max_x ≤ 4) × ((visual_of (panned 0)).max_y * 4 ≤ 16)
image_lines_in_memory_example =
    image_lines_in_memory (screen 1) (panned 0) (shown 0) image-screen refl (omega arith)
      (shown_size.0) (shown_size.1)

-- Panned by a whole screen, the picture has no line.
panned-dy_example : dy (visual_of (panned 2)) + 2 ≡ 2
panned-dy_example = panned-dy (screen 1) (panned 2) (shown 2) image-panned (omega arith)

-- A kernel that opens descriptor 3, and maps memory or fails to.
abbrev kernel : Reply (List ℕ) → Kernel
kernel reply = record {
  open_reply = λ calls dev. done 3;
  fix_reply = λ calls fd. done fixed;
  mmap_reply = λ calls fd len. reply;
  munmap_reply = λ calls bytes. errno 22;
  close_reply = λ calls fd. done tt;
}

open_device-Released_example : Released 3 (open_device (kernel (errno 12)) (b'f' ∷ b'b' ∷ []))
open_device-Released_example = open_device-Released (kernel (errno 12)) (b'f' ∷ b'b' ∷ []) 3 refl

open_fails :
    open_device (kernel (errno 12)) []
    ≡ (err (mmap_failed 12), opening [] ∷ reading_fix 3 ∷ mapping 3 16 ∷ closing 3 ∷ [])
unfolding open_device
open_fails = refl

open_succeeds :
    open_device (kernel (done (memory 1))) []
    ≡ (ok (screen 1), opening [] ∷ reading_fix 3 ∷ mapping 3 16 ∷ [])
unfolding open_device
open_succeeds = refl

close_device-opened_example :
    let closed =
      close_device
        (kernel (done (memory 1)))
        (screen 1)
        (opening [] ∷ reading_fix 3 ∷ mapping 3 16 ∷ []) in
    (count_closing 3 closed.1 ≡ 1)
    × ((closed.0 ≡ ok tt) ↔ (
        (◌≡◌ {A = Reply (Unit {0})} (errno 22) (done tt))
        × (◌≡◌ {A = Reply (Unit {0})} (done tt) (done tt))))
close_device-opened_example =
    close_device-opened (kernel (done (memory 1))) [] (screen 1)
      (opening [] ∷ reading_fix 3 ∷ mapping 3 16 ∷ []) open_succeeds
