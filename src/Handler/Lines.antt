-- ===== src/Handler/Lines.antt =====
-- srvfb.go, (*handler).readImage: the lines of a frame lie in its bytes, if the kernel keeps the
-- screen sane.
use srvfb.Base.{
  ℕ, ◌-◌, ◌*◌, ◌^◌, ◌≤◌, ◌<◌, ◌≡◌, refl, ◌⊎◌, inl, inr, arith, length, length-append, take, drop,
  replicate, length-take, length-drop, length-replicate,
}
use native.Mathlib.Nat.{mul-le-mul_right}
use srvfb.Base.Bytes.{Bytes, copy}
use srvfb.Base.Outcome.{Outcome, ok, err, panic}
use srvfb.Image.{Gray16, Picture, gray16, rect, dy}
use srvfb.Fb.{Reply, done, errno, Device, image, visual_of}
use srvfb.Fb.Geometry.{image-IsShown, lines_fit}
use srvfb.Fb.Types.{VarScreeninfo}
use srvfb.Handler.{Error, Shot, read_image, load, grow, new_gray16}
use srvfb.Handler.Frames.{read_image-ne, read_image-load, length-swap_bytes}

-- What the kernel keeps of a screen: lines are no longer than the virtual screen is wide, and the
-- offset and the resolution lie in it.
pub record IsSane (s : Shot) : Type 0 where
  pub packed :
      (v : VarScreeninfo) → s.reply ≡ done v → s.device.finfo.line_length ≤ 2 * v.xres_virtual
  pub small : (v : VarScreeninfo) → s.reply ≡ done v → v.xres_virtual * v.yres_virtual < 2 ^ 63
  pub offset_inside : (v : VarScreeninfo) → s.reply ≡ done v → v.yoffset ≤ v.yres_virtual
  pub lines_inside : (v : VarScreeninfo) → s.reply ≡ done v → v.yres ≤ v.yres_virtual

replied :
    (d : Device) (r : Reply VarScreeninfo) (p : Picture)
    → image d r ≡ ok p
    → (v : VarScreeninfo) × (r ≡ done v)
unfolding image
replied d (done v) p e = (v, refl)
replied d (errno n) p e = absurd (ground arith)

length-copy : (dst src : Bytes) → length (copy dst src) ≡ length dst
length-copy dst src = omega (
  arith,
  length-append (take (length dst) src) (drop (length src) dst),
  length-take (length dst) src,
  length-drop (length src) dst,
)

length-grow_le : (pix : Bytes) (n : ℕ) → n ≤ length (grow pix n)
unfolding grow
length-grow_le pix n = ground (
  arith,
  length-append pix (replicate (n - length pix) 0),
  length-replicate {A = ℕ} (n - length pix) 0,
)

-- The buffer holds the device's memory.
load-holds : (im g : Gray16) → length g.pix ≤ length (load im g).pix
unfolding load
load-holds im g =
    let b = grow im.pix (length g.pix) in
    omega (
      arith,
      length-swap_bytes (copy b g.pix),
      length-copy b g.pix,
      length-grow_le im.pix (length g.pix),
    )

visual_lines :
    (v : VarScreeninfo)
    → v.yoffset ≤ v.yres_virtual
    → v.yres ≤ v.yres_virtual
    → ((visual_of v).min_y ≤ (visual_of v).max_y) × ((visual_of v).max_y ≤ v.yres_virtual)
unfolding visual_of rect
visual_lines v a b = (ground arith, ground arith)

-- Its rectangle is in order, and ends in the buffer.
pub read_image-inside :
    (s : Shot) (im out : Gray16)
    → IsSane s
    → read_image s im ≡ ok out
    → (out.rect.min_y * out.stride ≤ out.rect.max_y * out.stride)
      × (out.rect.max_y * out.stride ≤ length out.pix)
read_image-inside s im out sane e =
    let (g, shown, loaded) = read_image-load s im out e in
    let (v, r) = replied s.device s.reply (gray16 g) shown in
    let i = image-IsShown s.device v g (rw r at shown) in
    let (ordered, low) = visual_lines v (sane.offset_inside v r) (sane.lines_inside v r) in
    let rect_eq : out.rect ≡ visual_of v = rw (← loaded) (unfold load in i.rect_eq) in
    let stride_eq : out.stride ≡ s.device.finfo.line_length =
      rw (← loaded) (unfold load in i.stride_eq) in
    let fits : out.rect.max_y * out.stride ≤ length g.pix =
      rw (rect_eq, stride_eq, i.pix_eq, ← i.area)
        (lines_fit _ _ _ _ low (sane.packed v r) (sane.small v r)) in
    let holds : length g.pix ≤ length out.pix = rw (← loaded) (load-holds im g) in
    let before : out.rect.min_y * out.stride ≤ out.rect.max_y * out.stride =
      rw rect_eq (mul-le-mul_right _ ordered) in
    (before, omega (arith, fits, holds))

-- As many lines as the rectangle is high.
abbrev pub HasLines : Gray16 → Type 0
HasLines im = dy im.rect * im.stride ≤ length im.pix

pub read_image-HasLines :
    (s : Shot) (im out : Gray16) → IsSane s → read_image s im ≡ ok out → HasLines out
unfolding dy
read_image-HasLines s im out sane e =
    let (before, inside) = read_image-inside s im out sane e in
    let less : dy out.rect * out.stride ≤ out.rect.max_y * out.stride =
      mul-le-mul_right _ (unfold dy in omega arith) in
    omega (arith, less, inside)

pub new_gray16-HasLines : HasLines new_gray16
unfolding dy
new_gray16-HasLines = omega arith

-- A frame, or an error.
pub read_image-cases :
    (s : Shot) (im : Gray16)
    → ((e : Error) × (read_image s im ≡ err e)) ⊎ ((out : Gray16) × (read_image s im ≡ ok out))
read_image-cases s im = by_result (read_image s im) refl
  where
    by_result :
        (o : Outcome Error Gray16)
        → read_image s im ≡ o
        → ((e : Error) × (read_image s im ≡ err e)) ⊎ ((out : Gray16) × (read_image s im ≡ ok out))
    by_result (ok out) e = inr (out, e)
    by_result (err x) e = inl (x, e)
    by_result panic e = absurd ((read_image-ne s im).1 e)
