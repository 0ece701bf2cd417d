-- ===== src/Handler/Frames.antt =====
-- srvfb.go, (*handler).readImage: what a frame holds.
use srvfb.Base.{
  ℕ, zero, suc, ◌+◌, ◌-◌, ◌*◌, ◌^◌, ◌≤◌, ◌≡◌, refl, ap, ◌∙◌, ◌≢◌, Option, none, some, [], ◌∷◌,
  arith, length, length-append, replicate, length-replicate,
}
use srvfb.Base.Bytes.{Bytes, copy-eq}
use srvfb.Base.Outcome.{Outcome, ok, err, panic, ◌>>=◌}
use srvfb.Image.{Gray16, Picture, gray16, other}
use srvfb.Fb.{Reply, done, errno, Device, image, visual_of}
use srvfb.Fb as Fb
use srvfb.Fb.Geometry.{image-IsShown}
use srvfb.Fb.Types.{VarScreeninfo}
use srvfb.Handler.{not_gray16, Shot, swap_bytes, grow, load, read_image, from_device, as_gray16}

pub length-swap_bytes : (xs : Bytes) → length (swap_bytes xs) ≡ length xs
unfolding swap_bytes
length-swap_bytes [] = refl
length-swap_bytes (a ∷ []) = refl
length-swap_bytes (a ∷ b ∷ r) = ap (λ n. suc (suc n)) (length-swap_bytes r)

-- The big-endian value of pixel i of a frame is the little-endian value of the device's pixel.
abbrev pub le_pixel : Bytes → ℕ → Option ℕ
le_pixel (a ∷ b ∷ r) zero = some (b * 2 ^ 8 + a)
le_pixel (a ∷ b ∷ r) (suc i) = le_pixel r i
le_pixel _ i = none

abbrev pub be_pixel : Bytes → ℕ → Option ℕ
be_pixel (a ∷ b ∷ r) zero = some (a * 2 ^ 8 + b)
be_pixel (a ∷ b ∷ r) (suc i) = be_pixel r i
be_pixel _ i = none

be_pixel-swap_bytes : (xs : Bytes) (i : ℕ) → be_pixel (swap_bytes xs) i ≡ le_pixel xs i
unfolding swap_bytes
be_pixel-swap_bytes [] i = refl
be_pixel-swap_bytes (a ∷ []) i = refl
be_pixel-swap_bytes (a ∷ b ∷ r) zero = refl
be_pixel-swap_bytes (a ∷ b ∷ r) (suc i) = be_pixel-swap_bytes r i

length-grow : (pix : Bytes) (n : ℕ) → length pix ≤ n → length (grow pix n) ≡ n
unfolding grow
length-grow pix n h = ground (
  arith,
  length-append pix (replicate (n - length pix) 0),
  length-replicate {A = ℕ} (n - length pix) 0,
)

-- A buffer no longer than the device's memory is overwritten whole.
pub load-pix :
    (im gim : Gray16) → length im.pix ≤ length gim.pix → (load im gim).pix ≡ swap_bytes gim.pix
unfolding load
load-pix im gim h = ap swap_bytes (copy-eq _ gim.pix (length-grow im.pix (length gim.pix) h))

-- The handler's reader never meets a picture of another type, and never panics.
pub read_image-ne :
    (s : Shot) (im : Gray16) → (read_image s im ≢ err not_gray16) × (read_image s im ≢ panic)
unfolding read_image image
read_image-ne s im = (λ h. ground arith, λ h. ground arith)

loaded_from :
    (r : Outcome Fb.Error Picture) (im out : Gray16)
    → (from_device r >>= λ vim. as_gray16 vim >>= λ gim. ok (load im gim)) ≡ ok out
    → (gim : Gray16) × (r ≡ ok (gray16 gim)) × (load im gim ≡ out)
unfolding from_device as_gray16
loaded_from (ok (gray16 g)) im out h = (g, refl, ground arith)
loaded_from (ok other) im out h = cc
loaded_from (err e) im out h = cc
loaded_from panic im out h = cc

-- A frame is a picture of the device, loaded into the buffer.
pub read_image-load :
    (s : Shot) (im out : Gray16)
    → read_image s im ≡ ok out
    → (gim : Gray16) × (image s.device s.reply ≡ ok (gray16 gim)) × (load im gim ≡ out)
unfolding read_image
read_image-load s im out h = loaded_from (image s.device s.reply) im out h

-- A frame read into a buffer no longer than the device's memory has a big-endian pixel for each
-- little-endian pixel of that memory, with the same value, and is as long as the memory.
pub read_image-pixels :
    (s : Shot) (v : VarScreeninfo) (im out : Gray16)
    → s.reply ≡ done v
    → length im.pix ≤ length s.device.mmap
    → read_image s im ≡ ok out
    → ((i : ℕ) → be_pixel out.pix i ≡ le_pixel s.device.mmap i)
      × (length out.pix ≡ length s.device.mmap)
      × (out.stride ≡ s.device.finfo.line_length)
      × (out.rect ≡ visual_of v)
read_image-pixels s v im out p q h =
    let (gim, shown, eq) = read_image-load s im out h in
    let i = image-IsShown s.device v gim (rw p at shown) in
    let pix : (out.pix ≡ swap_bytes s.device.mmap) =
      rw (← eq) (load-pix im gim (rw i.pix_eq q) ∙ ap swap_bytes i.pix_eq) in
    (
      λ n. rw pix (be_pixel-swap_bytes s.device.mmap n),
      rw pix (length-swap_bytes s.device.mmap),
      rw (← eq) (unfold load in i.stride_eq),
      rw (← eq) (unfold load in i.rect_eq),
    )
