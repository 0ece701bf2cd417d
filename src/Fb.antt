-- ===== src/Fb.antt =====
-- internal/fb/fb.go: a framebuffer device, opened by system calls, and the picture on it.
-- The kernel is a parameter: its answers are any functions of the calls made so far.
pub mod Types
pub mod Geometry
pub mod Resources
pub mod Samples
mod Tests
use srvfb.Base.{
  ℕ, zero, suc, ◌+◌, ◌-◌, ◌*◌, ◌/◌, ◌%◌, ◌^◌, ◌≤◌, ◌<◌, min, bit_and, bit_or, bit_xor, ◌≡◌, refl,
  sym, ap, ap₂, ◌∙◌, ◌≡⟨◌⟩◌, ◌∎, ◌≢◌, ◌↔◌, ◌⊎◌, inl, inr, Bool, true, false, not, ◌&&◌, ◌||◌,
  Option, none, some, List, [], ◌∷◌, ◌++◌, map, append-nil, append_assoc, arith, ltb, leb, ◌==◌,
  if◌then◌else◌, ltb→lt, lt→ltb, leb→le, le→leb, ==_iff, tests, Bool-cases, Option-cases, length,
  get_elem?, set, length-append, length-set, get_elem?-set_self, get_elem?-set_ne, get_or, take,
  drop, replicate, take-append-drop, length-take, length-drop, length-replicate, length-map,
}
use srvfb.Base.Outcome.{Outcome, ok, err, reject_if, ◌>>=◌, ◌>>◌}
use srvfb.Image.{Rectangle, rect, dx, dy, is_in, Gray16, Picture, gray16}
use Types.{FixScreeninfo, VarScreeninfo}

-- The errors of the package; a failed system call carries its error number.
pub data Error : Type 0 where
  open_failed : ℕ → Error
  fd_overflows : Error
  get_fscreeninfo : ℕ → Error
  mmap_failed : ℕ → Error
  get_vscreeninfo : ℕ → Error
  unsupported_depth : ℕ → Error
  resolution_mismatch : Error
  visual_outside : Error
  munmap_failed : ℕ → Error
  close_failed : ℕ → Error

pub data Reply (A : Type 0) : Type 0 where
  done : A → Reply A
  errno : ℕ → Reply A

-- A system call, as it is made: open, the two ioctls, mmap, munmap, close.
pub data Call : Type 0 where
  opening : List ℕ → Call
  reading_fix : ℕ → Call
  mapping : ℕ → ℕ → Call
  unmapping : List ℕ → Call
  closing : ℕ → Call

-- golang.org/x/sys/unix and the kernel behind it: each answer may depend on the earlier calls.
pub record Kernel : Type 0 where
  pub open_reply : List Call → List ℕ → Reply ℕ
  pub fix_reply : List Call → ℕ → Reply FixScreeninfo
  pub mmap_reply : List Call → ℕ → ℕ → Reply (List ℕ)
  pub munmap_reply : List Call → List ℕ → Reply (Unit {0})
  pub close_reply : List Call → ℕ → Reply (Unit {0})

-- `mmap` holds the bytes that the mapped memory shows at the time of a call.
pub record Device : Type 0 where
  pub fd : ℕ
  pub mmap : List ℕ
  pub finfo : FixScreeninfo

-- What `open` returns, and the calls made, in order.
abbrev pub Traced : Type 0 → Type 0
Traced A = Outcome Error A × List Call

module _ (k : Kernel) where
  after_mmap : List Call → ℕ → FixScreeninfo → Reply (List ℕ) → Traced Device
  after_mmap calls fd finfo (errno n) = (err (mmap_failed n), calls ++ (closing fd ∷ []))
  after_mmap calls fd finfo (done bytes) =
      (ok (record { fd = fd; mmap = bytes; finfo = finfo }), calls)

  after_fix : List Call → ℕ → Reply FixScreeninfo → Traced Device
  after_fix calls fd (errno n) = (err (get_fscreeninfo n), calls ++ (closing fd ∷ []))
  after_fix calls fd (done finfo) =
      after_mmap (calls ++ (mapping fd finfo.smem_len ∷ [])) fd finfo
        (k.mmap_reply calls fd finfo.smem_len)

  -- `int(uintptr(fd)) != fd`, with a 64-bit uintptr.
  after_open : List Call → Reply ℕ → Traced Device
  after_open calls (errno n) = (err (open_failed n), calls)
  after_open calls (done fd) =
      if not (fd % 2 ^ 64 == fd)
      then (err fd_overflows, calls ++ (closing fd ∷ []))
      else after_fix (calls ++ (reading_fix fd ∷ [])) fd (k.fix_reply calls fd)

  -- Open(dev)
  unfoldable pub open_device : List ℕ → Traced Device
  unfolding after_open after_fix after_mmap
  open_device dev = after_open (opening dev ∷ []) (k.open_reply [] dev)

  close_result : Reply (Unit {0}) → Reply (Unit {0}) → Outcome Error (Unit {0})
  close_result e1 (errno n) = err (close_failed n)
  close_result (errno n) (done _) = err (munmap_failed n)
  close_result (done _) (done _) = ok tt

  -- (*Device).Close
  unfoldable pub close_device : Device → List Call → Traced (Unit {0})
  unfolding close_result
  close_device d calls =
      let calls' = calls ++ (unmapping d.mmap ∷ []) in
      (
        close_result (k.munmap_reply calls d.mmap) (k.close_reply calls' d.fd),
        calls' ++ (closing d.fd ∷ []),
      )

-- (*Device).VarScreeninfo, with the answer to its ioctl.
unfoldable pub var_screeninfo : Reply VarScreeninfo → Outcome Error VarScreeninfo
var_screeninfo (done vinfo) = ok vinfo
var_screeninfo (errno n) = err (get_vscreeninfo n)

abbrev pub virtual_of : VarScreeninfo → Rectangle
virtual_of v = rect 0 0 v.xres_virtual v.yres_virtual

abbrev pub visual_of : VarScreeninfo → Rectangle
visual_of v = rect v.xoffset v.yoffset v.xres v.yres

-- (*Device).Image; `int` has 64 bits, so the product wraps at 2 ^ 64.
unfoldable pub image : Device → Reply VarScreeninfo → Outcome Error Picture
unfolding var_screeninfo
image d reply = do
  vinfo ← var_screeninfo reply
  reject_if (not (vinfo.bits_per_pixel == 16)) (unsupported_depth vinfo.bits_per_pixel)
  let virtual = virtual_of vinfo
  reject_if (not (dx virtual * dy virtual * 2 % 2 ^ 64 == length d.mmap)) resolution_mismatch
  let visual = visual_of vinfo
  reject_if (not (is_in visual virtual)) visual_outside
  ok (gray16 (record { pix = d.mmap; stride = d.finfo.line_length; rect = visual }))
