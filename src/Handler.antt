-- ===== src/Handler.antt =====
-- srvfb.go, (*handler).readImage: a frame of the device, in big-endian pixels.
pub mod Frames
pub mod Lines
mod Tests
use srvfb.Base.{
  ℕ, zero, suc, ◌+◌, ◌-◌, ◌*◌, ◌/◌, ◌%◌, ◌^◌, ◌≤◌, ◌<◌, min, bit_and, bit_or, bit_xor, ◌≡◌, refl,
  sym, ap, ap₂, ◌∙◌, ◌≡⟨◌⟩◌, ◌∎, ◌≢◌, ◌↔◌, ◌⊎◌, inl, inr, Bool, true, false, not, ◌&&◌, ◌||◌,
  Option, none, some, List, [], ◌∷◌, ◌++◌, map, append-nil, append_assoc, arith, ltb, leb, ◌==◌,
  if◌then◌else◌, ltb→lt, lt→ltb, leb→le, le→leb, ==_iff, tests, Bool-cases, Option-cases, length,
  get_elem?, set, length-append, length-set, get_elem?-set_self, get_elem?-set_ne, get_or, take,
  drop, replicate, take-append-drop, length-take, length-drop, length-replicate, length-map,
}
use srvfb.Base.Bytes.{Bytes, copy}
use srvfb.Base.Outcome.{Outcome, ok, err, panic, ◌>>=◌}
use srvfb.Image.{Gray16, Picture, gray16, other}
use srvfb.Fb.{Reply, Device, image}
use srvfb.Fb as Fb
use srvfb.Fb.Types.{VarScreeninfo}

-- The errors that a frame's readers return.
pub data Error : Type 0 where
  device_error : Fb.Error → Error
  not_gray16 : Error
  eof : Error
  unexpected_eof : Error
  bad_media_type : Error
  unknown_media_type : Error
  no_boundary : Error
  unknown_part_type : Error
  incompatible_version : ℕ → Error
  incompatible_depth : ℕ → Error

-- The device as one call of its Image method meets it: the bytes that its memory shows, and the
-- answer to the ioctl.
pub record Shot : Type 0 where
  pub device : Device
  pub reply : Reply VarScreeninfo

-- `for i := 1; i < len(im.Pix); i += 2`: exchanges the bytes of each whole pixel.
unfoldable pub swap_bytes : Bytes → Bytes
swap_bytes [] = []
swap_bytes (a ∷ []) = a ∷ []
swap_bytes (a ∷ b ∷ r) = b ∷ a ∷ swap_bytes r

-- The buffer, grown to `n` bytes at least.
unfoldable pub grow : Bytes → ℕ → Bytes
grow pix n = if ltb (length pix) n then pix ++ replicate (n - length pix) 0 else pix

unfoldable pub load : Gray16 → Gray16 → Gray16
unfolding swap_bytes grow
load im gim = record {
  pix = swap_bytes (copy (grow im.pix (length gim.pix)) gim.pix);
  stride = gim.stride;
  rect = gim.rect;
}

from_device {ℓ} : {A : Type ℓ} → Outcome Fb.Error A → Outcome Error A
from_device (ok a) = ok a
from_device (err e) = err (device_error e)
from_device panic = panic

as_gray16 : Picture → Outcome Error Gray16
as_gray16 (gray16 g) = ok g
as_gray16 other = err not_gray16

-- h.readImage(im); on an error `im` stays as it was.
unfoldable pub read_image : Shot → Gray16 → Outcome Error Gray16
unfolding from_device as_gray16
read_image s im = do
  vim ← from_device (image s.device s.reply)
  gim ← as_gray16 vim
  ok (load im gim)

-- `new(image.Gray16)`
abbrev pub new_gray16 : Gray16
new_gray16 = record {
  pix = [];
  stride = 0;
  rect = record { min_x = 0; min_y = 0; max_x = 0; max_y = 0 };
}
